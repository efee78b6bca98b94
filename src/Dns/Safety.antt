-- ===== src/Dns/Safety.antt =====
-- internal/dnswatch/dnsmsg.go: `parseMessage` gives an answer for every packet, without a panic.
use infrafence_agent.Base.{
  ℕ, zero, suc, ◌+◌, ◌≤◌, ◌≡◌, ◌⊎◌, List, [], ◌∷◌, ◌++◌, Option, none, some, arith, length, All,
  All-append, length-append, Bool-cases, inl, inr, ltb, ◌==◌, true, false, if◌then◌else◌, ◌&&◌,
}
use infrafence_agent.Dns.Wire.{Bytes, Run, panicked, exhausted, done, u16, read_name, ◌>>=◌}
use infrafence_agent.Dns.Message.{skip_questions, address, read_answer, read_answers}
use infrafence_agent.Dns.Names.{IsBytes, Returns, IsName, u16_lem, slice_lem, read_name-IsName}

-- An IPv4 or IPv6 address.
abbrev pub IsAddress : Bytes → Type 0
IsAddress ip = (length ip ≡ 4) ⊎ (length ip ≡ 16)

abbrev pub Inside : Bytes → Option ℕ → Type 0
Inside b none = Unit
Inside b (some off) = off ≤ length b

pub skip_questions-Inside :
    (n : ℕ) (b : Bytes) (off : ℕ)
    → IsBytes b
    → off ≤ length b
    → Returns (Inside b) (skip_questions n b off)
unfolding skip_questions
skip_questions-Inside zero b off bytes h = h
skip_questions-Inside (suc n) b off bytes h =
    next (read_name b off) (read_name-IsName b off bytes)
      (λ off' k. skip_questions-Inside n b off' bytes k)
  where
    next :
        (o : Run (Option (List Bytes × ℕ)))
        → Returns (IsName b off) o
        → ((off' : ℕ) → off' ≤ length b → Returns (Inside b) (skip_questions n b off'))
        → Returns (Inside b) (elim o [
          | panicked ↦ panicked
          | exhausted ↦ exhausted
          | done none ↦ done none
          | done (some (labels, size)) ↦ elim (ltb (length b) (off + size + 4)) [
            | true ↦ done none
            | false ↦ skip_questions n b (off + size + 4)
          ]
        ])
    next panicked a ih = a
    next exhausted a ih = a
    next (done none) a ih = tt
    next (done (some (labels, size))) a ih = elim (Bool-cases (ltb (length b) (off + size + 4))) [
      | inl t ↦ rw t tt
      | inr t ↦ rw t (ih (off + size + 4) (ground arith))
    ]

-- The addresses of one record, one at most, and the offset behind it.
abbrev Found : Bytes → Option (List Bytes × ℕ) → Type 0
Found b none = Unit
Found b (some (ips, off)) = All IsAddress ips × (length ips ≤ 1) × (off ≤ length b)

address-Found :
    (b : Bytes) (off kind rdlen : ℕ)
    → off + rdlen ≤ length b
    → (ips : List Bytes) × (address b off kind rdlen ≡ done ips)
      × All IsAddress ips
      × (length ips ≤ 1)
unfolding address
address-Found b off kind rdlen h = elim (Bool-cases (kind == 1 && rdlen == 4)) [
  | inl t ↦
      let (ip, e, n) = slice_lem b off 4 (ground arith) in
      (ip ∷ [], rw (t, e), (inl n, tt), omega arith)
  | inr t ↦ elim (Bool-cases (kind == 28 && rdlen == 16)) [
    | inl u ↦
        let (ip, e, n) = slice_lem b off 16 (ground arith) in
        (ip ∷ [], rw (t, u, e), (inr n, tt), omega arith)
    | inr u ↦ ([], rw (t, u), tt, omega arith)
  ]
]

read_answer-Found : (b : Bytes) (off : ℕ) → IsBytes b → Returns (Found b) (read_answer b off)
unfolding read_answer
read_answer-Found b off bytes = next (read_name b off) (read_name-IsName b off bytes)
  where
    next :
        (o : Run (Option (List Bytes × ℕ)))
        → Returns (IsName b off) o
        → Returns (Found b) (elim o [
          | panicked ↦ panicked
          | exhausted ↦ exhausted
          | done none ↦ done none
          | done (some (labels, size)) ↦ if ltb (length b) (off + size + 10) then done none else do
            kind ← u16 b (off + size)
            rdlen ← u16 b (off + size + 8)
            (if ltb (length b) (off + size + 10 + rdlen) then done none else do
              ips ← address b (off + size + 10) kind rdlen
              done (some (ips, off + size + 10 + rdlen)))
        ])
    next panicked a = a
    next exhausted a = a
    next (done none) a = tt
    next (done (some (labels, size))) a = elim (Bool-cases (ltb (length b) (off + size + 10))) [
      | inl t ↦ rw t tt
      | inr t ↦
          let room : off + size + 10 ≤ length b = ground arith in
          let (kind, e, _) = u16_lem b (off + size) bytes (omega (arith, room)) in
          let (rdlen, f, _) = u16_lem b (off + size + 8) bytes (omega (arith, room)) in
          elim (Bool-cases (ltb (length b) (off + size + 10 + rdlen))) [
            | inl u ↦ rw (t, e, f) (rw u tt)
            | inr u ↦
                let (ips, g, addrs, few) =
                  address-Found b (off + size + 10) kind rdlen (ground arith) in
                rw (t, e, f) (rw (u, g) (addrs, few, ground arith))
          ]
    ]

abbrev pub Answers : ℕ → List Bytes → Type 0
Answers n ips = All IsAddress ips × (length ips ≤ n)

pub read_answers-Answers :
    (n : ℕ) (b : Bytes) (off k : ℕ) (found : List Bytes)
    → IsBytes b
    → Answers k found
    → Returns (Answers (k + n)) (read_answers n b off found)
unfolding read_answers
read_answers-Answers zero b off k found bytes h = (h.0, omega (arith, h.1))
read_answers-Answers (suc n) b off k found bytes h =
    next (read_answer b off) (read_answer-Found b off bytes)
      (λ off' ips a. read_answers-Answers n b off' (k + 1) (found ++ ips) bytes a)
  where
    next :
        (o : Run (Option (List Bytes × ℕ)))
        → Returns (Found b) o
        → ((off' : ℕ) (ips : List Bytes)
            → Answers (k + 1) (found ++ ips)
            → Returns (Answers (k + 1 + n)) (read_answers n b off' (found ++ ips)))
        → Returns (Answers (k + suc n)) (elim o [
          | panicked ↦ panicked
          | exhausted ↦ exhausted
          | done none ↦ done found
          | done (some (ips, off')) ↦ read_answers n b off' (found ++ ips)
        ])
    next panicked a ih = a
    next exhausted a ih = a
    next (done none) a ih = (h.0, omega (arith, h.1))
    next (done (some (ips, off'))) a ih =
        let e : k + 1 + n ≡ k + suc n = omega arith in
        rw e at (
          ih off' ips (
            All-append IsAddress found ips h.0 a.0,
            omega (arith, length-append {0} found ips, h.1, a.1),
          ))
