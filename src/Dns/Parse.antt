-- ===== src/Dns/Parse.antt =====
-- internal/dnswatch/dnsmsg.go: what `parseMessage` answers for any packet.
use infrafence_agent.Base.{
  ℕ, ◌+◌, ◌-◌, ◌%◌, ◌≤◌, ◌<◌, ◌≡◌, refl, ◌⊎◌, List, [], Option, none, some, arith, min, length, All,
  Bool-cases, inl, inr, ltb, leb, ◌==◌, true, false, Bool, if◌then◌else◌,
}
use infrafence_agent.Dns.Wire.{Bytes, Run, panicked, exhausted, done, u16, read_name, ◌>>=◌, join}
use infrafence_agent.Dns.Message.{
  Message, no_message, skip_questions, read_answers, parse_rest, parse_question, parse_message,
}
use infrafence_agent.Dns.Names.{IsBytes, Returns, IsName, u16_lem, read_name-IsName}
use infrafence_agent.Dns.Safety.{
  IsAddress, Inside, Answers, skip_questions-Inside, read_answers-Answers,
}

-- A message that was read, and whether it is one.
abbrev pub IsParsed : Message × Bool → Type 0
IsParsed (m, good) =
    (m.rcode < 16)
    × All IsAddress m.answers
    × (length m.answers ≤ 64)
    × ((good ≡ true) ⊎ (m.answers ≡ []))

-- A header that was read.
abbrev IsHeader : Message → Type 0
IsHeader m = (m.rcode < 16) × (m.answers ≡ [])

IsHeader-IsParsed : (m : Message) (good : Bool) → IsHeader m → IsParsed (m, good)
IsHeader-IsParsed m good h = ground arith

module _ (to_lower : Bytes → Bytes) where
  parse_rest-IsParsed :
      (b : Bytes) (off qd an : ℕ) (m : Message)
      → IsBytes b
      → off ≤ length b
      → IsHeader m
      → Returns IsParsed (parse_rest to_lower b off qd an m)
  unfolding parse_rest
  parse_rest-IsParsed b off qd an m bytes h v =
      next (skip_questions (qd - 1) b off) (skip_questions-Inside (qd - 1) b off bytes h)
    where
      collect :
          (n : ℕ) (o : Run (List Bytes))
          → n ≤ 64
          → Returns (Answers n) o
          → Returns IsParsed (o >>= λ found. done (record m { answers = found }, true))
      collect n panicked p a = a
      collect n exhausted p a = a
      collect n (done found) p a = (v.0, a.0, omega (arith, p, a.1), inl refl)

      next :
          (o : Run (Option ℕ))
          → Returns (Inside b) o
          → Returns IsParsed (elim o [
            | panicked ↦ panicked
            | exhausted ↦ exhausted
            | done none ↦ done (m, true)
            | done (some off') ↦ do
              found ← read_answers (min an 64) b off' []
              done (record m { answers = found }, true)
          ])
      next panicked a = a
      next exhausted a = a
      next (done none) a = IsHeader-IsParsed m true v
      next (done (some off')) a =
          collect (0 + min an 64) (read_answers (min an 64) b off' []) (omega arith)
            (read_answers-Answers (min an 64) b off' 0 [] bytes (tt, omega arith))

  parse_question-IsParsed :
      (b : Bytes) (qd an : ℕ) (m : Message)
      → IsBytes b
      → IsHeader m
      → Returns IsParsed (parse_question to_lower b qd an m)
  unfolding parse_question
  parse_question-IsParsed b qd an m bytes v = next (read_name b 12) (read_name-IsName b 12 bytes)
    where
      next :
          (o : Run (Option (List Bytes × ℕ)))
          → Returns (IsName b 12) o
          → Returns IsParsed (elim o [
            | panicked ↦ panicked
            | exhausted ↦ exhausted
            | done none ↦ done (m, false)
            | done (some (labels, size)) ↦
                if ltb (length b) (12 + size + 4) then done (m, false) else do
                  qtype ← u16 b (12 + size)
                  parse_rest to_lower b
                      (12 + size + 4)
                      qd
                      an
                      (record m { name = to_lower (join labels); qtype = qtype })
          ])
      next panicked a = a
      next exhausted a = a
      next (done none) a = IsHeader-IsParsed m false v
      next (done (some (labels, size))) a = elim (Bool-cases (ltb (length b) (12 + size + 4))) [
        | inl t ↦ rw t (IsHeader-IsParsed m false v)
        | inr t ↦
            let room : 12 + size + 4 ≤ length b = ground arith in
            let (qtype, e, _) = u16_lem b (12 + size) bytes (omega (arith, room)) in
            rw (t, e)
              (parse_rest-IsParsed b (12 + size + 4) qd an
                (record m { name = to_lower (join labels); qtype = qtype }) bytes room v)
      ]

  -- Every packet gets an answer: the parser ends, and never reads outside the packet. The answer code
  -- has four bits, and there are at most 64 answers, each an address of 4 or 16 bytes; a packet that
  -- is refused has none.
  pub parse_message-IsParsed : (b : Bytes) → IsBytes b → Returns IsParsed (parse_message to_lower b)
  unfolding parse_message
  parse_message-IsParsed b bytes = elim (Bool-cases (ltb (length b) 12)) [
    | inl t ↦ rw t (IsHeader-IsParsed no_message false (omega arith, refl))
    | inr t ↦
        let room : 12 ≤ length b = ground arith in
        let (flags, e, _) = u16_lem b 2 bytes (omega (arith, room)) in
        let (qd, f, _) = u16_lem b 4 bytes (omega (arith, room)) in
        let (an, g, _) = u16_lem b 6 bytes (omega (arith, room)) in
        let m = record no_message { response = leb 0x8000 flags; rcode = flags % 16 } in
        let v : IsHeader m = (omega arith, refl) in
        elim (Bool-cases (qd == 0)) [
          | inl u ↦ rw (t, e, f, g) (rw u (IsHeader-IsParsed m false v))
          | inr u ↦ rw (t, e, f, g) (rw u (parse_question-IsParsed b qd an m bytes v))
        ]
  ]
