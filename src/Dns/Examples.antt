-- ===== src/Dns/Examples.antt =====
-- internal/dnswatch/dnsmsg.go: tests of the parser, and its theorems at concrete packets.
use infrafence_agent.Base.{◌≡◌, refl, true, some, none, [], ◌∷◌, ◌++◌, arith}
use infrafence_agent.Base.Text.{codes}
use infrafence_agent.Dns.Wire.{
  Bytes, done, byte, u16, slice, join, pointer, label, dispatch, round, read_loop, read_name,
}
use infrafence_agent.Dns.Message.{
  ascii_lower, skip_questions, read_answer, read_answers, parse_rest, parse_question, parse_message,
}
use infrafence_agent.Dns.Names.{IsName, Returns, read_name-IsName}
use infrafence_agent.Dns.Parse.{IsParsed, parse_message-IsParsed}
use infrafence_agent.Dns.RoundTrip.{read-write_name, read-write_compressed}

-- A response: the question `Ab.c`, type A, and one answer with a pointer to its name.
abbrev packet : Bytes
packet =
    (0 ∷ 7 ∷ 0x81 ∷ 0x80 ∷ 0 ∷ 1 ∷ 0 ∷ 1 ∷ 0 ∷ 0 ∷ 0 ∷ 0 ∷ [])
    ++ (2 ∷ b'A' ∷ b'b' ∷ 1 ∷ b'c' ∷ 0 ∷ 0 ∷ 1 ∷ 0 ∷ 1 ∷ [])
    ++ (192 ∷ 12 ∷ 0 ∷ 1 ∷ 0 ∷ 1 ∷ 0 ∷ 0 ∷ 0 ∷ 9 ∷ 0 ∷ 4 ∷ 10 ∷ 0 ∷ 0 ∷ 1 ∷ [])

packet_parsed :
    parse_message ascii_lower packet
    ≡ done (
      record {
        response = true;
        rcode = 0;
        name = codes "ab.c";
        qtype = 1;
        answers = (10 ∷ 0 ∷ 0 ∷ 1 ∷ []) ∷ [];
      },
      true,
    )
unfolding parse_message parse_question parse_rest read_answers read_answer skip_questions read_name
    read_loop round dispatch pointer label slice u16 byte join
packet_parsed = refl

-- A pointer to itself is given up after the jumps allowed.
pointer_loop : read_name (192 ∷ 0 ∷ []) 0 ≡ done none
unfolding read_name read_loop round dispatch pointer u16 byte
pointer_loop = refl

read_name-IsName_example : Returns (IsName packet 12) (read_name packet 12)
read_name-IsName_example = read_name-IsName packet 12 (omega arith)

parse_message-IsParsed_example : Returns IsParsed (parse_message ascii_lower packet)
parse_message-IsParsed_example = parse_message-IsParsed ascii_lower packet (omega arith)

read-write_name_example :
    read_name packet 12 ≡ done (some ((b'A' ∷ b'b' ∷ []) ∷ (b'c' ∷ []) ∷ [], 6))
read-write_name_example =
    read-write_name packet 12 ((b'A' ∷ b'b' ∷ []) ∷ (b'c' ∷ []) ∷ [])
      ((0 ∷ 1 ∷ 0 ∷ 1 ∷ [])
        ++ (192 ∷ 12 ∷ 0 ∷ 1 ∷ 0 ∷ 1 ∷ 0 ∷ 0 ∷ 0 ∷ 9 ∷ 0 ∷ 4 ∷ 10 ∷ 0 ∷ 0 ∷ 1 ∷ []))
      (refl, refl) (omega arith) (omega arith)

read-write_compressed_example :
    read_name packet 22 ≡ done (some ((b'A' ∷ b'b' ∷ []) ∷ (b'c' ∷ []) ∷ [], 2))
read-write_compressed_example =
    read-write_compressed packet 22 12 [] ((b'A' ∷ b'b' ∷ []) ∷ (b'c' ∷ []) ∷ [])
      (0 ∷ 1 ∷ 0 ∷ 1 ∷ 0 ∷ 0 ∷ 0 ∷ 9 ∷ 0 ∷ 4 ∷ 10 ∷ 0 ∷ 0 ∷ 1 ∷ [])
      ((0 ∷ 1 ∷ 0 ∷ 1 ∷ [])
        ++ (192 ∷ 12 ∷ 0 ∷ 1 ∷ 0 ∷ 1 ∷ 0 ∷ 0 ∷ 0 ∷ 9 ∷ 0 ∷ 4 ∷ 10 ∷ 0 ∷ 0 ∷ 1 ∷ []))
      (refl, refl) (refl, refl) (omega arith) tt (omega arith) (omega arith)
