-- ===== src/Dns/Names.antt =====
-- internal/dnswatch/dnsmsg.go: `readName` ends, and stays inside the packet.
use infrafence_agent.Base.{
  ℕ, zero, suc, ◌+◌, ◌-◌, ◌*◌, ◌/◌, ◌≤◌, ◌<◌, ◌≡◌, refl, List, [], ◌∷◌, ◌++◌, Option, none, some,
  arith, length, All, All-append, Bool-cases, inl, inr, ltb, leb, ◌==◌,
}
pub use infrafence_agent.Base.Run.{Returns, slice_lem}
use infrafence_agent.Dns.Wire.{
  Bytes, Run, panicked, exhausted, done, byte, u16, Reading, Round, stop, go, pointer, label,
  dispatch, round, read_loop, read_name, name_fuel, or_else,
}

-- The bytes of a packet.
abbrev pub IsBytes : Bytes → Type 0
IsBytes b = All (λ c. c < 256) b

pub byte_lem :
    (b : Bytes) (i : ℕ) → IsBytes b → i < length b → (c : ℕ) × (byte b i ≡ done c) × (c < 256)
unfolding byte
byte_lem [] i h p = elim p [ ]
byte_lem (c ∷ b) zero h p = (c, refl, h.0)
byte_lem (c ∷ b) (suc i) h p = byte_lem b i h.1 (omega arith)

pub u16_lem :
    (b : Bytes) (i : ℕ) → IsBytes b → i + 1 < length b → (v : ℕ) × (u16 b i ≡ done v) × (v < 65536)
unfolding u16
u16_lem b i h p =
    let (high, e, hb) = byte_lem b i h (omega arith) in
    let (low, f, lb) = byte_lem b (i + 1) h p in
    (high * 256 + low, rw (e, f), omega (arith, hb, lb))

-- The bytes that the labels take up in a packet, their length bytes included.
abbrev pub size : List Bytes → ℕ
size [] = 0
size (l ∷ ls) = length l + 1 + size ls

size-append : (ls ms : List Bytes) → size (ls ++ ms) ≡ size ls + size ms
size-append [] ms = omega arith
size-append (l ∷ ls) ms = omega (arith, size-append ls ms)

abbrev pub IsLabel : Bytes → Type 0
IsLabel l = (0 < length l) × (length l < 64)

-- The bytes of the name at `off`, once they are known, lie in the packet.
abbrev Placed : Bytes → ℕ → Option ℕ → ℕ → Type 0
Placed b off none pos = off ≤ pos
Placed b off (some n) pos = (0 < n) × (off + n ≤ length b)

record Inv (b : Bytes) (off : ℕ) (r : Reading) : Type 0 where
  few_jumps : r.jumps ≤ 17
  short : r.total ≤ 255
  sized : size r.labels ≡ r.total
  labels : All IsLabel r.labels
  placed : Placed b off r.consumed r.pos

abbrev fuel_left : Reading → ℕ
fuel_left r = (17 - r.jumps) + (255 - r.total)

-- A name that was read: labels of 1 to 63 bytes, 255 bytes in all at most, and bytes in the packet.
abbrev pub IsName : Bytes → ℕ → Option (List Bytes × ℕ) → Type 0
IsName b off none = Unit
IsName b off (some (labels, n)) =
    All IsLabel labels × (size labels ≤ 255) × (0 < n) × (off + n ≤ length b)

abbrev After : Bytes → ℕ → Reading → Round → Type 0
After b off r (stop result) = IsName b off result
After b off r (go r') = Inv b off r' × (fuel_left r' < fuel_left r)

Placed-or_else :
    (b : Bytes) (off : ℕ) (o : Option ℕ) (pos n : ℕ)
    → Placed b off o pos
    → pos + n ≤ length b
    → 0 < n
    → (0 < or_else o (pos + n - off)) × (off + or_else o (pos + n - off) ≤ length b)
Placed-or_else b off none pos n p h k = omega arith
Placed-or_else b off (some m) pos n p h k = p

Placed-later :
    (b : Bytes) (off : ℕ) (o : Option ℕ) (pos pos' : ℕ)
    → Placed b off o pos
    → pos ≤ pos'
    → Placed b off o pos'
Placed-later b off none pos pos' p h = omega arith
Placed-later b off (some m) pos pos' p h = p

pointer-After :
    (b : Bytes) (off : ℕ) (r : Reading)
    → IsBytes b
    → Inv b off r
    → Returns (After b off r) (pointer b off r)
unfolding pointer
pointer-After b off r bytes v = elim (Bool-cases (leb (length b) (r.pos + 1))) [
  | inl t ↦ rw t tt
  | inr t ↦ elim (Bool-cases (ltb 16 r.jumps)) [
    | inl u ↦ rw (t, u) tt
    | inr u ↦
        let (target, e, _) = u16_lem b r.pos bytes (ground arith) in
        rw (t, u, e)
          (
            record {
              few_jumps = ground arith;
              short = v.short;
              sized = v.sized;
              labels = v.labels;
              placed =
                  Placed-or_else b off r.consumed r.pos 2 v.placed (ground arith) (omega arith);
            },
            ground arith,
          )
  ]
]

label-After :
    (b : Bytes) (off l : ℕ) (r : Reading)
    → 0 < l
    → l < 64
    → Inv b off r
    → Returns (After b off r) (label b l r)
unfolding label
label-After b off l r p q v = elim (Bool-cases (ltb (length b) (r.pos + 1 + l))) [
  | inl t ↦ rw t tt
  | inr t ↦ elim (Bool-cases (ltb 255 (r.total + (l + 1)))) [
    | inl u ↦ rw (t, u) tt
    | inr u ↦
        let (text, e, n) = slice_lem b (r.pos + 1) l (ground arith) in
        rw (t, u, e)
          (
            record {
              few_jumps = v.few_jumps;
              short = ground arith;
              sized = omega (arith, size-append r.labels (text ∷ []), v.sized, n);
              labels =
                  All-append IsLabel r.labels (text ∷ []) v.labels ((omega arith, omega arith), tt);
              placed = Placed-later b off r.consumed r.pos (r.pos + (1 + l)) v.placed (omega arith);
            },
            ground arith,
          )
  ]
]

dispatch-After :
    (b : Bytes) (off l : ℕ) (r : Reading)
    → IsBytes b
    → l < 256
    → r.pos < length b
    → Inv b off r
    → Returns (After b off r) (dispatch b off r l)
unfolding dispatch
dispatch-After b off l r bytes p inside v = elim (Bool-cases (l == 0)) [
  | inl t ↦
      let end = Placed-or_else b off r.consumed r.pos 1 v.placed (omega arith) (omega arith) in
      rw t (v.labels, omega (arith, v.sized, v.short), end.0, end.1)
  | inr t ↦ elim (Bool-cases (l / 64 == 3)) [
    | inl u ↦ rw (t, u) (pointer-After b off r bytes v)
    | inr u ↦ elim (Bool-cases (ltb 0 (l / 64))) [
      | inl w ↦ rw (t, u, w) tt
      | inr w ↦ rw (t, u, w) (label-After b off l r (ground arith) (ground arith) v)
    ]
  ]
]

round-After :
    (b : Bytes) (off : ℕ) (r : Reading)
    → IsBytes b
    → Inv b off r
    → Returns (After b off r) (round b off r)
unfolding round
round-After b off r bytes v = elim (Bool-cases (leb (length b) r.pos)) [
  | inl t ↦ rw t tt
  | inr t ↦
      let inside : r.pos < length b = ground arith in
      let (l, e, p) = byte_lem b r.pos bytes inside in
      rw (t, e) (dispatch-After b off l r bytes p inside v)
]

read_loop-IsName :
    (fuel : ℕ) (b : Bytes) (off : ℕ) (r : Reading)
    → IsBytes b
    → Inv b off r
    → fuel_left r < fuel
    → Returns (IsName b off) (read_loop fuel b off r)
unfolding read_loop
read_loop-IsName zero b off r bytes v p = elim p [ ]
read_loop-IsName (suc fuel) b off r bytes v p =
    next (round b off r) (round-After b off r bytes v)
      (λ r' w q. read_loop-IsName fuel b off r' bytes w q)
  where
    next :
        (o : Run Round)
        → Returns (After b off r) o
        → ((r' : Reading)
            → Inv b off r'
            → fuel_left r' < fuel
            → Returns (IsName b off) (read_loop fuel b off r'))
        → Returns (IsName b off) (elim o [
          | panicked ↦ panicked
          | exhausted ↦ exhausted
          | done (stop result) ↦ done result
          | done (go r') ↦ read_loop fuel b off r'
        ])
    next panicked a ih = a
    next exhausted a ih = a
    next (done (stop result)) a ih = a
    next (done (go r')) a ih = ih r' a.0 (omega (arith, a.1))

-- Reading a name always ends, and never reads outside the packet, whatever its bytes and the offset.
-- What it reads are labels of 1 to 63 bytes, 255 in all at most with their length bytes, and the
-- bytes that it says the name occupies lie in the packet.
pub read_name-IsName : (b : Bytes) (off : ℕ) → IsBytes b → Returns (IsName b off) (read_name b off)
unfolding read_name
read_name-IsName b off bytes =
    read_loop-IsName name_fuel b off
      (record { labels = []; consumed = none; pos = off; jumps = 0; total = 0 }) bytes (omega arith)
      (omega arith)
