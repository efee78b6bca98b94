-- ===== src/Dns/Wire.antt =====
-- internal/dnswatch/dnsmsg.go: reading a packet's bytes, and `readName`.
use infrafence_agent.Base.{
  ℕ, zero, suc, ◌+◌, ◌-◌, ◌*◌, ◌/◌, ◌%◌, List, [], ◌∷◌, ◌++◌, Option, none, some, ltb, leb, ◌==◌,
  if◌then◌else◌, length,
}
pub use infrafence_agent.Base.Run.{Bytes, Run, panicked, exhausted, done, ◌>>=◌}
unfoldable pub use infrafence_agent.Base.Run.{byte, slice}

-- `binary.BigEndian.Uint16(b[i:i+2])`.
unfoldable pub u16 : Bytes → ℕ → Run ℕ
unfolding byte
u16 b i = do high ← byte b i; low ← byte b (i + 1); done (high * 256 + low)

-- `strings.Join(labels, ".")`.
unfoldable pub join : List Bytes → Bytes
join [] = []
join (l ∷ []) = l
join (l ∷ m ∷ ls) = l ++ b'.' ∷ join (m ∷ ls)

-- What the loop of `readName` carries.
pub record Reading : Type 0 where
  pub labels : List Bytes
  pub consumed : Option ℕ
  pub pos : ℕ
  pub jumps : ℕ
  pub total : ℕ

-- `if consumed < 0 { consumed = n }`.
abbrev pub or_else : Option ℕ → ℕ → ℕ
or_else none n = n
or_else (some m) n = m

-- What one round does: it ends with a result, or goes on.
pub data Round : Type 0 where
  stop : Option (List Bytes × ℕ) → Round
  go : Reading → Round

unfoldable pub pointer : Bytes → ℕ → Reading → Run Round
pointer b off r =
    if leb (length b) (r.pos + 1)
    then done (stop none)
    else if ltb 16 r.jumps
    then done (stop none)
    else do
      target ← u16 b r.pos
      done (
          go (record r {
            consumed = some (or_else r.consumed (r.pos + 2 - off));
            pos = target % 0x4000;
            jumps = r.jumps + 1;
          }))

unfoldable pub label : Bytes → ℕ → Reading → Run Round
label b l r =
    if ltb (length b) (r.pos + 1 + l)
    then done (stop none)
    else if ltb 255 (r.total + (l + 1))
    then done (stop none)
    else do
      text ← slice b (r.pos + 1) l
      done (
          go (record r {
            labels = r.labels ++ text ∷ [];
            pos = r.pos + (1 + l);
            total = r.total + (l + 1);
          }))

-- The `switch`. `l & 0xc0` are the two high bits of a byte, `l / 64`.
unfoldable pub dispatch : Bytes → ℕ → Reading → ℕ → Run Round
dispatch b off r l =
    if l == 0
    then done (stop (some (r.labels, or_else r.consumed (r.pos + 1 - off))))
    else if l / 64 == 3
    then pointer b off r
    else if ltb 0 (l / 64)
    then done (stop none)
    else label b l r

unfoldable pub round : Bytes → ℕ → Reading → Run Round
round b off r =
    if leb (length b) r.pos then done (stop none) else do l ← byte b r.pos; dispatch b off r l

unfoldable pub read_loop : ℕ → Bytes → ℕ → Reading → Run (Option (List Bytes × ℕ))
read_loop zero b off r = exhausted
read_loop (suc fuel) b off r = elim (round b off r) [
  | panicked ↦ panicked
  | exhausted ↦ exhausted
  | done (stop result) ↦ done result
  | done (go r') ↦ read_loop fuel b off r'
]

-- At most 17 jumps and 255 bytes of labels: each round but the last uses up one of them.
abbrev pub name_fuel : ℕ
name_fuel = 300

-- `readName`, with the labels still apart and in the case of the packet.
unfoldable pub read_name : Bytes → ℕ → Run (Option (List Bytes × ℕ))
read_name b off =
    read_loop name_fuel b off
      (record { labels = []; consumed = none; pos = off; jumps = 0; total = 0 })
