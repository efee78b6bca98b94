-- ===== src/Geoip/Value.antt =====
-- internal/geoip/mmdb.go: the work that `checkMetadata` does on any file.
use infrafence_agent.Base.{
  ℕ, zero, suc, ◌+◌, ◌-◌, ◌*◌, ◌/◌, ◌%◌, ◌≤◌, Bool, false, Option, none, some, ltb, leb, ◌==◌,
  if◌then◌else◌, length, arith, Bool-cases, inl, inr,
}
use infrafence_agent.Base.Run.{
  Bytes, Run, done, ◌>>=◌, Returns, Returns-bind, byte_Returns, slice_lem,
}
use infrafence_agent.Geoip.Metadata.{
  Head, refused, pointer, head, sized, read_head, Checked, check_all, check_payload, check_value,
  max_metadata, marker, after_last, check_metadata,
}

-- The bytes behind the control bytes: of a payload inside the section, of a pointer at most four outside.
HeadFits : Bytes → ℕ → Head → Type 0
HeadFits b off refused = Unit
HeadFits b off (pointer end) = (off + 1 ≤ end) × (end ≤ length b + 4)
HeadFits b off (head typ size at) = (off + 1 ≤ at) × (at ≤ length b)

sized-HeadFits :
    (b : Bytes) (typ size off at : ℕ)
    → off + 1 ≤ at
    → at ≤ length b
    → Returns (HeadFits b off) (sized b typ size at)
unfolding HeadFits sized
sized-HeadFits b typ size off at p q = elim (Bool-cases (ltb size 29)) [
  | inl t ↦ rw t (p, q)
  | inr t ↦ elim (Bool-cases (ltb (length b) (at + (size - 28)))) [
    | inl u ↦ rw (t, u) tt
    | inr u ↦
        let (text, e, n) = slice_lem b at (size - 28) (ground arith) in
        rw (t, u, e) (omega (arith, p), ground arith)
  ]
]

read_head-HeadFits : (b : Bytes) (off : ℕ) → Returns (HeadFits b off) (read_head b off)
unfolding HeadFits read_head
read_head-HeadFits b off = elim (Bool-cases (leb (length b) off)) [
  | inl t ↦ rw t tt
  | inr t ↦
      let (ctrl, e) = byte_Returns b off (ground arith) in
      elim (Bool-cases (ctrl / 32 == 1)) [
        | inl k ↦ rw (t, e, k) (omega arith, ground arith)
        | inr k ↦ elim (Bool-cases (ctrl / 32 == 0)) [
          | inr z ↦
              rw (t, e, k, z)
                (sized-HeadFits b (ctrl / 32) (ctrl % 32) off (off + 1) (omega arith)
                  (ground arith))
          | inl z ↦ elim (Bool-cases (leb (length b) (off + 1))) [
            | inl u ↦ rw (t, e, k, z, u) tt
            | inr u ↦
                let (ext, f) = byte_Returns b (off + 1) (ground arith) in
                rw (t, e, k, z, u, f)
                  (sized-HeadFits b (7 + ext) (ctrl % 32) off (off + 2) (omega arith)
                    (ground arith))
          ]
        ]
      ]
]

-- The values looked at from an offset on: at most one for each byte, and five more where the check
-- fails.
abbrev pub Fits : Bytes → ℕ → Checked → Type 0
Fits b off (none, count) = count + off ≤ length b + 5
Fits b off (some end, count) = (count + off ≤ end) × (end ≤ length b + 4)

add_count :
    (b : Bytes) (off next c : ℕ)
    → c + off ≤ next
    → (s : Checked) → Fits b next s
    → Fits b off (s.0, c + s.1)
add_count b off next c p (none, d) q = omega (arith, p, q)
add_count b off next c p (some end, d) q = (omega (arith, p, q.0), q.1)

check_all-Fits :
    (b : Bytes) (f : ℕ → Run Checked)
    → ((at : ℕ) → at ≤ length b + 4 → Returns (Fits b at) (f at))
    → (n off : ℕ) → off ≤ length b + 4
    → Returns (Fits b off) (check_all f n off)
unfolding check_all
check_all-Fits b f each zero off p = (omega arith, p)
check_all-Fits b f each (suc n) off p =
    Returns-bind (Fits b off) (Fits b off) (f off) _ (each off p)
      (step λ next h. check_all-Fits b f each n next h)
  where
    step :
        ((next : ℕ) → next ≤ length b + 4 → Returns (Fits b next) (check_all f n next))
        → (r : Checked) → Fits b off r
        → Returns (Fits b off) (elim r.0 [
          | none ↦ done (none, r.1)
          | some next ↦ check_all f n next >>= λ s. done (s.0, r.1 + s.1)
        ])
    step ih (none, c) q = q
    step ih (some next, c) q =
        Returns-bind (Fits b next) (Fits b off) (check_all f n next) _ (ih next q.1)
          (add_count b off next c q.0)

module _ (b : Bytes) (f : ℕ → Run Checked)
    (each : (at : ℕ) → at ≤ length b + 4 → Returns (Fits b at) (f at)) where
  entries-Fits :
      (n off at : ℕ)
      → off + 1 ≤ at
      → at ≤ length b
      → Returns (Fits b off) (check_all f n at >>= λ r. done (r.0, 1 + r.1))
  entries-Fits n off at p q =
      Returns-bind (Fits b at) (Fits b off) (check_all f n at) _
        (check_all-Fits b f each n at (omega (arith, q))) (add_count b off at 1 (omega (arith, p)))

  check_payload-Fits :
      (h : Head) (off : ℕ)
      → off ≤ length b + 4
      → HeadFits b off h
      → Returns (Fits b off) (check_payload f b h)
  unfolding check_payload HeadFits
  check_payload-Fits refused off p q = omega (arith, p)
  check_payload-Fits (pointer end) off p q = (omega (arith, q.0), q.1)
  check_payload-Fits (head typ size at) off p q = elim (Bool-cases (typ == 7)) [
    | inl t ↦ elim (Bool-cases (ltb ((length b - at) / 2) size)) [
      | inl u ↦ rw (t, u) (omega (arith, p))
      | inr u ↦ rw (t, u) (entries-Fits (2 * size) off at q.0 q.1)
    ]
    | inr t ↦ elim (Bool-cases (typ == 11)) [
      | inl a ↦ elim (Bool-cases (ltb (length b - at) size)) [
        | inl u ↦ rw (t, a, u) (omega (arith, p))
        | inr u ↦ rw (t, a, u) (entries-Fits size off at q.0 q.1)
      ]
      | inr a ↦ elim (Bool-cases (typ == 14)) [
        | inl c ↦ rw (t, a, c) (omega (arith, q.0), omega (arith, q.1))
        | inr c ↦ elim (Bool-cases (ltb (length b - at) size)) [
          | inl u ↦ rw (t, a, c, u) (omega (arith, p))
          | inr u ↦ rw (t, a, c, u) (omega (arith, q.0), ground arith)
        ]
      ]
    ]
  ]

-- Every value, whatever the bytes and however many levels are left.
check_value-Fits :
    (b : Bytes) (left off : ℕ) → off ≤ length b + 4 → Returns (Fits b off) (check_value b left off)
unfolding check_value
check_value-Fits b zero off p = omega (arith, p)
check_value-Fits b (suc left) off p =
    Returns-bind (HeadFits b off) (Fits b off) (read_head b off) _ (read_head-HeadFits b off)
      (λ h q.
        check_payload-Fits b (check_value b left) (λ at k. check_value-Fits b left at k) h off p q)

-- Every file gets an answer about its metadata: no read is outside it, and the check looks at no more
-- than 65541 values.
pub check_metadata-Returns :
    (file : Bytes) → Returns (λ r. r.1 ≤ max_metadata + 5) (check_metadata file)
unfolding check_metadata
check_metadata-Returns file = found (after_last marker file)
  where
    verdict :
        (meta : Bytes)
        → length meta ≤ max_metadata
        → (r : Checked) → Fits meta 0 r
        → Returns
            (λ (s : Bool × ℕ). s.1 ≤ max_metadata + 5)
            (elim r.0 [ none ↦ done (false, r.1) | some end ↦ done (leb end (length meta), r.1) ])
    verdict meta small (none, c) q = omega (arith, small, q)
    verdict meta small (some end, c) q = omega (arith, small, q.0, q.1)

    found :
        (o : Option Bytes)
        → Returns
            (λ (s : Bool × ℕ). s.1 ≤ max_metadata + 5)
            (elim o [
              | none ↦ done (false, 0)
              | some meta ↦
                  if ltb max_metadata (length meta)
                  then done (false, 0)
                  else (check_value meta 33 0 >>= λ r. elim r.0 [
                    | none ↦ done (false, r.1)
                    | some end ↦ done (leb end (length meta), r.1)
                  ])
            ])
    found none = omega arith
    found (some meta) = elim (Bool-cases (ltb max_metadata (length meta))) [
      | inl t ↦ rw t (omega arith)
      | inr t ↦ rw t (
          Returns-bind (Fits meta 0) _ (check_value meta 33 0) _
            (check_value-Fits meta 33 0 (omega arith)) (verdict meta (ground arith)))
    ]
