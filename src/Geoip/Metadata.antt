-- ===== src/Geoip/Metadata.antt =====
-- internal/geoip/mmdb.go: `checkMetadata` and `checkValue`. Beside its outcome a check answers how many
-- values it looked at, the measure of its work. The depth is the number of levels left: 33 at the top.
use infrafence_agent.Base.{
  ℕ, zero, suc, ◌+◌, ◌-◌, ◌*◌, ◌/◌, ◌%◌, [], ◌∷◌, Bool, true, false, not, ◌&&◌, Option, none, some,
  ltb, leb, ◌==◌, if◌then◌else◌, length, drop,
}
use infrafence_agent.Base.Run.{Bytes, Run, done, ◌>>=◌, byte, slice}

-- The control bytes of a value: refused, a pointer with the offset after it, or a type, a size and the
-- offset of the payload.
pub data Head : Type 0 where
  refused : Head
  pointer : ℕ → Head
  head : ℕ → ℕ → ℕ → Head

-- `v = v<<8 | int(c)` over the size bytes.
abbrev pub big_endian : ℕ → Bytes → ℕ
big_endian v [] = v
big_endian v (c ∷ cs) = big_endian (v * 256 + c) cs

-- What the size bytes say for the size 29, 30 or 31 of the control byte.
abbrev pub wide_size : ℕ → ℕ → ℕ
wide_size size v = if size == 29 then 29 + v else if size == 30 then 285 + v else 65821 + v

unfoldable pub sized : Bytes → ℕ → ℕ → ℕ → Run Head
sized b typ size off =
    if ltb size 29
    then done (head typ size off)
    else (let n = size - 28 in
        if ltb (length b) (off + n) then done refused else do
          text ← slice b off n
          done (head typ (wide_size size (big_endian 0 text)) (off + n)))

-- `ctrl >> 5` is the control byte over 32, and `& 0x1f` its rest.
unfoldable pub read_head : Bytes → ℕ → Run Head
read_head b off = if leb (length b) off then done refused else do
  ctrl ← byte b off
  if ctrl / 32 == 1
      then done (pointer (off + 1 + ctrl / 8 % 4 + 1))
      else if not (ctrl / 32 == 0)
      then sized b (ctrl / 32) (ctrl % 32) (off + 1)
      else if leb (length b) (off + 1)
      then done refused
      else do ext ← byte b (off + 1); sized b (7 + ext) (ctrl % 32) (off + 2)

-- The offset after a value, if it is accepted, and how many values were looked at.
abbrev pub Checked : Type 0
Checked = Option ℕ × ℕ

-- The loops over the entries of a map and the elements of an array.
unfoldable pub check_all : (ℕ → Run Checked) → ℕ → ℕ → Run Checked
check_all f zero off = done (some off, 0)
check_all f (suc n) off = f off >>= λ r. elim r.0 [
  | none ↦ done (none, r.1)
  | some next ↦ check_all f n next >>= λ s. done (s.0, r.1 + s.1)
]

-- The `switch` on the type of a value, which is looked at itself.
unfoldable pub check_payload : (ℕ → Run Checked) → Bytes → Head → Run Checked
check_payload f b refused = done (none, 1)
check_payload f b (pointer end) = done (some end, 1)
check_payload f b (head typ size off) =
    let rest = length b - off in
    if typ == 7
    then if ltb (rest / 2) size
      then done (none, 1)
      else (check_all f (2 * size) off >>= λ r. done (r.0, 1 + r.1))
    else if typ == 11
    then if ltb rest size
      then done (none, 1)
      else (check_all f size off >>= λ r. done (r.0, 1 + r.1))
    else if typ == 14
    then done (some off, 1)
    else if ltb rest size
    then done (none, 1)
    else done (some (off + size), 1)

-- `checkValue`.
unfoldable pub check_value : Bytes → ℕ → ℕ → Run Checked
check_value b zero off = done (none, 1)
check_value b (suc left) off = read_head b off >>= check_payload (check_value b left) b

abbrev pub max_metadata : ℕ
max_metadata = 65536

-- The metadata marker, `\xAB\xCD\xEFMaxMind.com`.
abbrev pub marker : Bytes
marker = 0xAB ∷ 0xCD ∷ 0xEF ∷ 77 ∷ 97 ∷ 120 ∷ 77 ∷ 105 ∷ 110 ∷ 100 ∷ 46 ∷ 99 ∷ 111 ∷ 109 ∷ []

abbrev pub starts_with : Bytes → Bytes → Bool
starts_with [] cs = true
starts_with (m ∷ ms) [] = false
starts_with (m ∷ ms) (c ∷ cs) = c == m && starts_with ms cs

-- What follows the last marker: `bytes.LastIndex` and the slice after it.
unfoldable pub after_last : Bytes → Bytes → Option Bytes
after_last m [] = if starts_with m [] then some [] else none
after_last m (c ∷ cs) = elim (after_last m cs) [
  | some rest ↦ some rest
  | none ↦ if starts_with m (c ∷ cs) then some (drop (length m) (c ∷ cs)) else none
]

-- `checkMetadata`: whether the metadata is accepted, and how many values were looked at.
unfoldable pub check_metadata : Bytes → Run (Bool × ℕ)
check_metadata file = elim (after_last marker file) [
  | none ↦ done (false, 0)
  | some meta ↦
      if ltb max_metadata (length meta)
      then done (false, 0)
      else (check_value meta 33 0 >>= λ r. elim r.0 [
        | none ↦ done (false, r.1)
        | some end ↦ done (leb end (length meta), r.1)
      ])
]
