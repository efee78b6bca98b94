-- ===== src/Geoip/Examples.antt =====
-- internal/geoip/mmdb.go: the checks on small files.
use infrafence_agent.Base.{
  ◌+◌, ◌≤◌, Bool, true, false, none, some, [], ◌∷◌, ◌++◌, ◌≡◌, refl, inl, arith,
}
use infrafence_agent.Base.Run.{Bytes, panicked, done, Returns, byte}
use infrafence_agent.Geoip.Metadata.{
  marker, max_metadata, check_metadata, check_value, after_last, read_head, sized, check_all,
  check_payload,
}
use infrafence_agent.Geoip.Value.{check_metadata-Returns}
use infrafence_agent.Geoip.Tree.{
  Tree, Network, walk, walk_stack, visit, visit_side, take_side, leaf, descend, read_record, u24,
  mark, unvisited,
}
use infrafence_agent.Geoip.Nodes.{IsTree, Bounded}
use infrafence_agent.Geoip.Walk.{walk-Bounded, walk_wrapped}

-- A map of one entry: the key "a" and the number 7 in one byte.
abbrev one_entry : Bytes
one_entry = marker ++ 225 ∷ 65 ∷ 97 ∷ 161 ∷ 7 ∷ []

one_entry_test : check_metadata one_entry ≡ done (true, 3)
unfolding check_metadata after_last check_value read_head sized check_all check_payload byte
one_entry_test = refl

-- A map that claims 28 entries.
large_map_test : check_metadata (marker ++ 252 ∷ 65 ∷ 97 ∷ []) ≡ done (false, 1)
unfolding check_metadata after_last check_value read_head sized check_all check_payload byte
large_map_test = refl

check_metadata-Returns_example : Returns (λ r. r.1 ≤ max_metadata + 5) (check_metadata one_entry)
check_metadata-Returns_example = check_metadata-Returns one_entry

-- Two nodes: 0.0.0.0/1 has data, and 128.0.0.0/1 is split again, into data and nothing.
abbrev small : Tree
small = record {
  node_count = 2;
  record_size = 24;
  ip_version = 4;
  file = 0 ∷ 0 ∷ 18 ∷ 0 ∷ 0 ∷ 1 ∷ 0 ∷ 0 ∷ 19 ∷ 0 ∷ 0 ∷ 2 ∷ [];
}

-- The two sides of the first node are one node.
abbrev shared : Tree
shared = record small { file = 0 ∷ 0 ∷ 1 ∷ 0 ∷ 0 ∷ 1 ∷ 0 ∷ 0 ∷ 18 ∷ 0 ∷ 0 ∷ 18 ∷ [] }

abbrev all_good : Network → Bool
all_good net = true

small_test :
    walk small all_good
    ≡ done (
        some (
          record { first = 2147483648; last = 3221225471; offset = 1 }
          ∷ record { first = 0; last = 2147483647; offset = 0 }
          ∷ []))
unfolding walk walk_stack visit visit_side take_side leaf descend read_record u24 mark unvisited
    byte
small_test = refl

shared_test : walk shared all_good ≡ done none
unfolding walk walk_stack visit visit_side take_side leaf descend read_record u24 mark unvisited
    byte
shared_test = refl

small-IsTree : IsTree small
small-IsTree = record { size = inl refl; no_wrap = omega arith; in_memory = omega arith }

walk-Bounded_example : Returns (Bounded small) (walk small all_good)
walk-Bounded_example = walk-Bounded small all_good small-IsTree

walk_wrapped_example :
    walk
      (record {
        node_count = 2305843009213693952;
        record_size = 32;
        ip_version = 4;
        file = one_entry;
      })
      all_good
    ≡ panicked
walk_wrapped_example = walk_wrapped one_entry all_good
