-- ===== src/Dns/Message.antt =====
-- internal/dnswatch/dnsmsg.go: `parseMessage`. The lower-casing of a name is strings.ToLower, which is
-- an argument: for a name of ASCII bytes it is `ascii_lower`.
use infrafence_agent.Base.{
  ℕ, zero, suc, ◌+◌, ◌-◌, ◌%◌, Bool, true, false, List, [], ◌∷◌, ◌++◌, Option, none, some, ltb, leb,
  ◌==◌, ◌&&◌, if◌then◌else◌, length, map, min,
}
use infrafence_agent.Dns.Wire.{
  Bytes, Run, panicked, exhausted, done, ◌>>=◌, u16, slice, join, read_name,
}

pub record Message : Type 0 where
  pub response : Bool
  pub rcode : ℕ
  pub name : Bytes
  pub qtype : ℕ
  pub answers : List Bytes

abbrev pub no_message : Message
no_message = record { response = false; rcode = 0; name = []; qtype = 0; answers = [] }

abbrev pub ascii_lower : Bytes → Bytes
ascii_lower = map λ c. if leb b'A' c && leb c b'Z' then c + 32 else c

-- The loop over the further questions: the offset behind them, or `none` where it gives up.
unfoldable pub skip_questions : ℕ → Bytes → ℕ → Run (Option ℕ)
skip_questions zero b off = done (some off)
skip_questions (suc n) b off = elim (read_name b off) [
  | panicked ↦ panicked
  | exhausted ↦ exhausted
  | done none ↦ done none
  | done (some (labels, size)) ↦ elim (ltb (length b) (off + size + 4)) [
    | true ↦ done none
    | false ↦ skip_questions n b (off + size + 4)
  ]
]

-- The address of a resource record, if it is an A or AAAA record of the right length.
unfoldable pub address : Bytes → ℕ → ℕ → ℕ → Run (List Bytes)
address b off kind size =
    if kind == 1 && size == 4
    then (do ip ← slice b off 4; done (ip ∷ []))
    else if kind == 28 && size == 16
    then (do ip ← slice b off 16; done (ip ∷ []))
    else done []

-- One resource record at an offset: its addresses and the offset behind it, or `none` at the `break`.
unfoldable pub read_answer : Bytes → ℕ → Run (Option (List Bytes × ℕ))
unfolding address
read_answer b off = elim (read_name b off) [
  | panicked ↦ panicked
  | exhausted ↦ exhausted
  | done none ↦ done none
  | done (some (labels, size)) ↦ if ltb (length b) (off + size + 10) then done none else do
    kind ← u16 b (off + size)
    rdlen ← u16 b (off + size + 8)
    (if ltb (length b) (off + size + 10 + rdlen) then done none else do
      ips ← address b (off + size + 10) kind rdlen
      done (some (ips, off + size + 10 + rdlen)))
]

unfoldable pub read_answers : ℕ → Bytes → ℕ → List Bytes → Run (List Bytes)
read_answers zero b off found = done found
read_answers (suc n) b off found = elim (read_answer b off) [
  | panicked ↦ panicked
  | exhausted ↦ exhausted
  | done none ↦ done found
  | done (some (ips, off')) ↦ read_answers n b off' (found ++ ips)
]

module _ (to_lower : Bytes → Bytes) where
  -- What follows the first question.
  unfoldable pub parse_rest : Bytes → ℕ → ℕ → ℕ → Message → Run (Message × Bool)
  parse_rest b off qd an m = elim (skip_questions (qd - 1) b off) [
    | panicked ↦ panicked
    | exhausted ↦ exhausted
    | done none ↦ done (m, true)
    | done (some off') ↦ do
      found ← read_answers (min an 64) b off' []
      done (record m { answers = found }, true)
  ]

  -- The first question, at offset 12.
  unfoldable pub parse_question : Bytes → ℕ → ℕ → Message → Run (Message × Bool)
  parse_question b qd an m = elim (read_name b 12) [
    | panicked ↦ panicked
    | exhausted ↦ exhausted
    | done none ↦ done (m, false)
    | done (some (labels, size)) ↦ if ltb (length b) (12 + size + 4) then done (m, false) else do
      qtype ← u16 b (12 + size)
      parse_rest b (12 + size + 4) qd an (record m { name = to_lower (join labels); qtype = qtype })
  ]

  -- `parseMessage`. `flags & 0x8000` is the high bit of the two bytes, `flags & 0x000f` their low four.
  unfoldable pub parse_message : Bytes → Run (Message × Bool)
  parse_message b = if ltb (length b) 12 then done (no_message, false) else do
    flags ← u16 b 2
    qd ← u16 b 4
    an ← u16 b 6
    let m = record no_message { response = leb 0x8000 flags; rcode = flags % 16 }
    (if qd == 0 then done (m, false) else parse_question b qd an m)
