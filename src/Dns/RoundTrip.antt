-- ===== src/Dns/RoundTrip.antt =====
-- internal/dnswatch/dnsmsg.go: `readName` reads back the names that a sender writes, plain or behind a
-- compression pointer.
use infrafence_agent.Base.{
  ℕ, zero, suc, ◌+◌, ◌-◌, ◌*◌, ◌/◌, ◌%◌, ◌≤◌, ◌<◌, ◌≡◌, refl, ap, ◌∙◌, List, [], ◌∷◌, ◌++◌, Option,
  none, some, arith, length, take, drop, get_elem?, All, length-append, ltb, leb, ◌==◌, true, false,
}
use mathlib.Core.List.{append_assoc, append-nil}
use native.Mathlib.Nat.{zero-add, suc-add}
use infrafence_agent.Dns.Wire.{
  Bytes, done, byte, u16, slice, Reading, stop, go, pointer, label, dispatch, round, read_loop,
  read_name, name_fuel, or_else,
}
use infrafence_agent.Dns.Names.{size, IsLabel}

-- The labels as a sender writes them, each behind its length, without the closing zero.
abbrev pub write_labels : List Bytes → Bytes
write_labels [] = []
write_labels (l ∷ ls) = length l ∷ l ++ write_labels ls

length-write_labels : (ls : List Bytes) → length (write_labels ls) ≡ size ls
length-write_labels [] = refl
length-write_labels (l ∷ ls) =
    omega (arith, length-append {0} l (write_labels ls), length-write_labels ls)

-- A packet is seen from an offset on: `At b i s` says that the bytes from `i` are `s`.
abbrev pub At : Bytes → ℕ → Bytes → Type 0
At b i s = (i + length s ≡ length b) × (drop i b ≡ s)

drop-append : (p s : Bytes) → drop (length p) (p ++ s) ≡ s
drop-append [] s = refl
drop-append (c ∷ p) s = drop-append p s

At-start : (p s : Bytes) → At (p ++ s) (length p) s
At-start p s = (omega (arith, length-append {0} p s), drop-append p s)

get_elem?-drop : (b : Bytes) (i c : ℕ) (s : Bytes) → drop i b ≡ c ∷ s → get_elem? b i ≡ some c
get_elem?-drop [] zero c s h = cc
get_elem?-drop [] (suc i) c s h = cc
get_elem?-drop (d ∷ b) zero c s h = ground arith
get_elem?-drop (d ∷ b) (suc i) c s h = get_elem?-drop b i c s h

byte-At : (b : Bytes) (i c : ℕ) (s : Bytes) → At b i (c ∷ s) → byte b i ≡ done c
unfolding byte
byte-At b i c s h = rw (get_elem?-drop b i c s h.1, byte)

drop-drop : (i n : ℕ) (b : Bytes) → drop (i + n) b ≡ drop n (drop i b)
drop-drop zero n b = rw zero-add
drop-drop (suc i) zero [] = rw suc-add
drop-drop (suc i) (suc n) [] = rw suc-add
drop-drop (suc i) n (c ∷ b) = rw suc-add (drop-drop i n b)

At-behind : (b : Bytes) (i : ℕ) (x s : Bytes) → At b i (x ++ s) → At b (i + length x) s
At-behind b i x s h = (
  omega (arith, h.0, length-append {0} x s),
  drop-drop i (length x) b ∙ ap (drop (length x)) h.1 ∙ drop-append x s,
)

take-append : (x s : Bytes) → take (length x) (x ++ s) ≡ x
take-append [] s = refl
take-append (c ∷ x) s = rw (take-append x s)

slice-At : (b : Bytes) (i : ℕ) (x s : Bytes) → At b i (x ++ s) → slice b i (length x) ≡ done x
unfolding slice
slice-At b i x s h =
    let inside : leb (i + length x) (length b) ≡ true =
      ground (arith, h.0, length-append {0} x s) in
    rw (inside, slice) (rw (h.1, take-append x s))

-- The state behind some labels.
abbrev behind : Reading → List Bytes → Reading
behind r ls = record r { labels = r.labels ++ ls; pos = r.pos + size ls; total = r.total + size ls }

round-label :
    (b : Bytes) (off : ℕ) (r : Reading) (l s : Bytes)
    → At b r.pos (length l ∷ l ++ s)
    → IsLabel l
    → r.total + (length l + 1) ≤ 255
    → round b off r
      ≡ done (
          go (record r {
            labels = r.labels ++ l ∷ [];
            pos = r.pos + (1 + length l);
            total = r.total + (length l + 1);
          }))
unfolding round dispatch label
round-label b off r l s h short room =
    let n = length-append {0} l s in
    let t1 : leb (length b) r.pos ≡ false = ground (arith, h.0, n) in
    let t2 : (length l == 0) ≡ false = ground arith in
    let t3 : (length l / 64 == 3) ≡ false = ground arith in
    let t4 : ltb 0 (length l / 64) ≡ false = ground arith in
    let t5 : ltb (length b) (r.pos + 1 + length l) ≡ false = ground (arith, h.0, n) in
    let t6 : ltb 255 (r.total + (length l + 1)) ≡ false = ground arith in
    let text = slice-At b (r.pos + 1) l s (At-behind b r.pos (length l ∷ []) (l ++ s) h) in
    rw (t1, byte-At b r.pos (length l) (l ++ s) h) (rw (t2, t3, t4, t5, t6) (rw text))

round-end :
    (b : Bytes) (off : ℕ) (r : Reading) (s : Bytes)
    → At b r.pos (0 ∷ s)
    → round b off r ≡ done (stop (some (r.labels, or_else r.consumed (r.pos + 1 - off))))
unfolding round dispatch
round-end b off r s h =
    let t1 : leb (length b) r.pos ≡ false = ground (arith, h.0) in rw (t1, byte-At b r.pos 0 s h)

-- A compression pointer to an offset below 2^14.
abbrev pub write_pointer : ℕ → Bytes
write_pointer target = (192 + target / 256) ∷ target % 256 ∷ []

round-pointer :
    (b : Bytes) (off target : ℕ) (r : Reading) (s : Bytes)
    → At b r.pos (write_pointer target ++ s)
    → target < 0x4000
    → r.jumps ≤ 16
    → round b off r
      ≡ done (
          go (record r {
            consumed = some (or_else r.consumed (r.pos + 2 - off));
            pos = target;
            jumps = r.jumps + 1;
          }))
unfolding round dispatch pointer u16
round-pointer b off target r s h below few =
    let t1 : leb (length b) r.pos ≡ false = ground (arith, h.0) in
    let t2 : (192 + target / 256 == 0) ≡ false = ground arith in
    let t3 : ((192 + target / 256) / 64 == 3) ≡ true = ground arith in
    let t4 : leb (length b) (r.pos + 1) ≡ false = ground (arith, h.0) in
    let t5 : ltb 16 r.jumps ≡ false = ground arith in
    let first = byte-At b r.pos (192 + target / 256) (target % 256 ∷ s) h in
    let second =
      byte-At b (r.pos + 1) (target % 256) s
        (At-behind b r.pos ((192 + target / 256) ∷ []) (target % 256 ∷ s) h) in
    let value : ((192 + target / 256) * 256 + target % 256) % 0x4000 ≡ target = omega arith in
    rw (t1, first) (rw (t2, t3, t4, t5) (rw second (rw value)))

read_loop-go :
    (fuel : ℕ) (b : Bytes) (off : ℕ) (r r' : Reading)
    → round b off r ≡ done (go r')
    → read_loop (suc fuel) b off r ≡ read_loop fuel b off r'
unfolding read_loop
read_loop-go fuel b off r r' e = rw (e, read_loop)

read_loop-stop :
    (fuel : ℕ) (b : Bytes) (off : ℕ) (r : Reading) (result : Option (List Bytes × ℕ))
    → round b off r ≡ done (stop result)
    → read_loop (suc fuel) b off r ≡ done result
unfolding read_loop
read_loop-stop fuel b off r result e = rw (e, read_loop)

-- Labels of a length of their own are read one by one.
read_loop-labels :
    (ls : List Bytes) (n fuel : ℕ) (b : Bytes) (off : ℕ) (r : Reading) (s : Bytes)
    → n ≡ length ls + fuel
    → At b r.pos (write_labels ls ++ s)
    → All IsLabel ls
    → r.total + size ls ≤ 255
    → read_loop n b off r ≡ read_loop fuel b off (behind r ls)
read_loop-labels [] n fuel b off r s e h short room =
    let same : behind r [] ≡ r = ground (arith, append-nil r.labels) in
    let n_eq : n ≡ fuel = omega arith in rw (same, n_eq)
read_loop-labels (l ∷ ls) zero fuel b off r s e h short room = absurd (omega arith)
read_loop-labels (l ∷ ls) (suc n) fuel b off r s e h short room =
    let r1 = record r {
      labels = r.labels ++ l ∷ [];
      pos = r.pos + (1 + length l);
      total = r.total + (length l + 1);
    } in
    let here : At b r.pos (length l ∷ l ++ (write_labels ls ++ s)) =
      rw (append_assoc l (write_labels ls) s) at h in
    let there : At b (r.pos + length (length l ∷ l)) (write_labels ls ++ s) =
      At-behind b r.pos (length l ∷ l) (write_labels ls ++ s) here in
    let pos_eq : r.pos + length (length l ∷ l) ≡ r.pos + (1 + length l) = omega arith in
    let same : behind r1 ls ≡ behind r (l ∷ ls) =
      ground (arith, append_assoc r.labels (l ∷ []) ls) in
    read_loop-go n b off r r1
      (round-label b off r l (write_labels ls ++ s) here short.0 (omega arith))
    ∙ read_loop-labels ls n fuel b off r1 s (omega arith) (rw pos_eq at there) short.1 (omega arith)
    ∙ ap (read_loop fuel b off) same

length-le-size : (ls : List Bytes) → length ls ≤ size ls
length-le-size [] = omega arith
length-le-size (l ∷ ls) = omega (arith, length-le-size ls)

-- A name that a sender writes at any place of a packet is read back, with the number of bytes that it
-- occupies there: labels of 1 to 63 bytes, 255 bytes in all at most.
pub read-write_name :
    (b : Bytes) (off : ℕ) (ls : List Bytes) (s : Bytes)
    → At b off (write_labels ls ++ (0 ∷ s))
    → All IsLabel ls
    → size ls ≤ 255
    → read_name b off ≡ done (some (ls, size ls + 1))
unfolding read_name
read-write_name b off ls s start short room =
    let r : Reading = record { labels = []; consumed = none; pos = off; jumps = 0; total = 0 } in
    let after = At-behind b off (write_labels ls) (0 ∷ s) start in
    let used : off + size ls + 1 - off ≡ size ls + 1 = omega arith in
    read_loop-labels ls name_fuel (suc (name_fuel - length ls - 1)) b off r (0 ∷ s)
      (omega (arith, length-le-size ls)) start short (omega arith)
    ∙ read_loop-stop (name_fuel - length ls - 1) b off (behind r ls) _
        (round-end b off (behind r ls) s (rw (length-write_labels ls) at after))
    ∙ ap (λ n. done (some (ls, n))) used

-- A compressed name, labels and then a pointer to the rest of the name elsewhere in the packet, is
-- read as the whole name, and occupies the labels and the two bytes of the pointer.
pub read-write_compressed :
    (b : Bytes) (off target : ℕ) (ls ms : List Bytes) (s s' : Bytes)
    → At b off (write_labels ls ++ (write_pointer target ++ s))
    → At b target (write_labels ms ++ (0 ∷ s'))
    → target < 0x4000
    → All IsLabel ls
    → All IsLabel ms
    → size ls + size ms ≤ 255
    → read_name b off ≡ done (some (ls ++ ms, size ls + 2))
unfolding read_name
read-write_compressed b off target ls ms s s' start rest below short short' room =
    let r : Reading = record { labels = []; consumed = none; pos = off; jumps = 0; total = 0 } in
    let r1 = behind r ls in
    let r2 = record r1 { consumed = some (off + size ls + 2 - off); pos = target; jumps = 1 } in
    let fuel = name_fuel - length ls - length ms - 2 in
    let pointer_at = At-behind b off (write_labels ls) (write_pointer target ++ s) start in
    let end_at = At-behind b target (write_labels ms) (0 ∷ s') rest in
    let used : off + size ls + 2 - off ≡ size ls + 2 = omega arith in
    read_loop-labels ls name_fuel (suc (length ms + suc fuel)) b off r (write_pointer target ++ s)
      (omega (arith, length-le-size ls, length-le-size ms)) start short (omega arith)
    ∙ read_loop-go (length ms + suc fuel) b off r1 r2 (
        round-pointer b off target r1 s (rw (length-write_labels ls) at pointer_at) below
          (omega arith))
    ∙ read_loop-labels ms (length ms + suc fuel) (suc fuel) b off r2 (0 ∷ s') refl rest short'
        (omega arith)
    ∙ read_loop-stop fuel b off (behind r2 ms) _
        (round-end b off (behind r2 ms) s' (rw (length-write_labels ms) at end_at))
    ∙ ap (λ n. done (some (ls ++ ms, n))) used
