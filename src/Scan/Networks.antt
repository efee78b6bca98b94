-- ===== src/Scan/Networks.antt =====
-- internal/scanwatch/analyzer.go: what the analyzer keeps of networks, and over any run.
use infrafence_agent.Base.{
  ℕ, ◌≤◌, ap, false, not, ◌||◌, List, [], ◌∷◌, String, ltb, length, is_some, arith, Bool-cases,
  Option-cases, inl, inr,
}
use infrafence_agent.Base.Dict.{Dict, lookup, length-insert, length-retain-le}
use infrafence_agent.Base.Keys.{Key, string_key, nat_key}
use infrafence_agent.Base.Time.{Time, sub_lt, sub_gt}
use infrafence_agent.Scan.Analyzer.{
  window, network_cooldown, network_threshold, network_addresses, max_network_ports, Tracked,
  Analyzer, new_analyzer, no_track, recent, prune, set_capped, tried_in, judge_network,
  count_network, observe_network, Source, observe, observe_address,
}
use infrafence_agent.Scan.Bounds.{
  Capped, IsBounded, Ready, put-Small, delete-Small, All-lookup, room_Ready_n, room-IsBounded,
  prune-IsBounded, observe_address-IsBounded,
}

set_capped_le :
    {K : Type 0} ⦃e : Key K⦄ (k : K) (now : Time) (m : Dict K Time)
    → length m ≤ max_network_ports
    → length (set_capped k now m) ≤ max_network_ports
set_capped_le k now m h = ground (arith, length-insert k now m)

tried_in-Capped :
    (addr : String) (port : ℕ) (now : Time) (tr : Tracked)
    → Capped tr
    → Capped (tried_in addr port now tr)
tried_in-Capped addr port now tr c =
    (set_capped_le port now tr.ports c.0, set_capped_le addr now tr.addrs c.1)

recent-Capped :
    (now : Time) (tr : Tracked)
    → Capped tr
    → Capped (record tr { ports = recent tr.ports now; addrs = recent tr.addrs now })
recent-Capped now tr c = (
  omega (arith, c.0, length-retain-le (λ k t. not (sub_gt now t window)) tr.ports),
  omega (arith, c.1, length-retain-le (λ k t. not (sub_gt now t window)) tr.addrs),
)

judge_network-IsBounded :
    (a : Analyzer) (key addr : String) (now : Time) (tr : Tracked)
    → IsBounded a
    → Capped tr
    → Ready a.networks key
    → IsBounded (judge_network a key addr now tr).0
unfolding judge_network
judge_network-IsBounded a key addr now tr i c r =
    elim (Bool-cases
      (ltb (length tr.ports) network_threshold || ltb (length tr.addrs) network_addresses)) [
        | inl t ↦ rw t (record {
          sources = i.sources;
          networks = put-Small Capped key tr a.networks c r i.networks;
        })
        | inr t ↦
            elim (Bool-cases (
              ltb (length (recent tr.ports now)) network_threshold
              || ltb (length (recent tr.addrs now)) network_addresses)) [
                | inl u ↦
                    rw (t, u)
                      (record {
                        sources = i.sources;
                        networks =
                            put-Small Capped key _ a.networks (recent-Capped now tr c) r i.networks;
                      })
                | inr u ↦
                    rw (t, u)
                      (record {
                        sources = i.sources;
                        networks = delete-Small Capped key a.networks i.networks;
                      })
              ]
      ]

count_network-IsBounded :
    (a : Analyzer) (key addr : String) (port : ℕ) (now : Time)
    → IsBounded a
    → IsBounded (count_network a key addr port now).0
unfolding count_network Ready
count_network-IsBounded a key addr port now i = elim (Option-cases (lookup key a.networks)) [
  | inr (tr, l) ↦
      rw (l, count_network)
        (judge_network-IsBounded a key addr now _ i
          (tried_in-Capped addr port now tr (All-lookup Capped key a.networks tr i.networks.1 l))
          (inl (ap is_some l)))
  | inl l ↦
      rw (l, count_network)
        (judge_network-IsBounded _ key addr now _ (room-IsBounded a now _ i)
          (tried_in-Capped addr port now no_track (omega arith, omega arith))
          (inr (room_Ready_n a now)))
]

observe_network-IsBounded :
    (a : Analyzer) (key addr : String) (port : ℕ) (now : Time)
    → IsBounded a
    → IsBounded (observe_network a key addr port now).0
unfolding observe_network
observe_network-IsBounded a key addr port now i = elim (Option-cases (lookup key a.reported_n)) [
  | inl l ↦ rw (l, observe_network) (count_network-IsBounded a key addr port now i)
  | inr (t, l) ↦ elim (Bool-cases (sub_lt now t network_cooldown)) [
    | inl u ↦ rw (l, observe_network, u) i
    | inr u ↦
        rw (l, observe_network, u)
          (count_network-IsBounded _ key addr port now
            (record { sources = i.sources; networks = i.networks }))
  ]
]

-- What happens to the analyzer: a connection attempt, or `Prune`.
pub data Event : Type 0 where
  attempt : Source → ℕ → Time → Event
  pruning : Time → Event

unfoldable pub run_event : Analyzer → Event → Analyzer
run_event a (attempt src port now) = (observe a src port now).0
run_event a (pruning now) = prune a now false

-- The analyzer after some events, the latest first.
unfoldable pub run_events : List Event → Analyzer
run_events [] = new_analyzer
run_events (e ∷ es) = run_event (run_events es) e

run_event-IsBounded : (a : Analyzer) (e : Event) → IsBounded a → IsBounded (run_event a e)
unfolding run_event observe
run_event-IsBounded a (pruning now) i = prune-IsBounded a now false i
run_event-IsBounded a (attempt src port now) i = elim (Bool-cases src.skipped) [
  | inl s ↦ rw (s, observe) i
  | inr s ↦
      rw (s, observe)
        (observe_network-IsBounded (observe_address a src.address port now).0 src.network
          src.address port now (observe_address-IsBounded a src.address port now i))
]

-- Whatever attempts are seen, at whatever times, at most 20000 addresses are tracked, each with fewer
-- than 15 ports, and at most 20000 networks, each with at most 256 ports and 256 addresses.
pub run_events-IsBounded : (es : List Event) → IsBounded (run_events es)
unfolding run_events
run_events-IsBounded [] = record { sources = (omega arith, tt); networks = (omega arith, tt) }
run_events-IsBounded (e ∷ es) = run_event-IsBounded (run_events es) e (run_events-IsBounded es)
