-- ===== src/Scan/Bounds.antt =====
-- internal/scanwatch/analyzer.go: what the analyzer keeps is bounded.
use infrafence_agent.Base.{
  ℕ, ◌≤◌, ◌<◌, ◌≡◌, subst, ap, ◌⊎◌, Bool, true, false, some, [], ◌∷◌, String, ltb, leb, length,
  is_some, All, arith, Bool-cases, Option-cases, inl, inr,
}
use infrafence_agent.Base.Dict.{
  Dict, lookup, insert, delete, retain, has, length-insert, length-retain-le, length-delete-le,
}
use infrafence_agent.Base.Keys.{string_key, nat_key, =?-cases}
use infrafence_agent.Base.Time.{Time, sub_lt}
use infrafence_agent.Scan.Analyzer.{
  threshold, cooldown, max_tracked, max_network_ports, Tracked, Analyzer, recent, start_over, prune,
  room, tried, judge_address, count_address, observe_address,
}

module _ {V : Type 0} (P : V → Type 0) where
  All-insert :
      (k : String) (v : V) (m : Dict String V)
      → P v
      → All (λ e. P e.1) m
      → All (λ e. P e.1) (insert k v m)
  unfolding insert
  All-insert k v [] p a = (p, tt)
  All-insert k v ((j, w) ∷ m) p a = elim (=?-cases j k) [
    | inl (t, q) ↦ rw t (p, a.1)
    | inr (t, q) ↦ rw t (a.0, All-insert k v m p a.1)
  ]

  All-retain :
      (f : String → V → Bool) (m : Dict String V)
      → All (λ e. P e.1) m
      → All (λ e. P e.1) (retain f m)
  unfolding retain
  All-retain f [] a = tt
  All-retain f ((j, w) ∷ m) a = elim (Bool-cases (f j w)) [
    | inl t ↦ rw t (a.0, All-retain f m a.1)
    | inr t ↦ rw t (All-retain f m a.1)
  ]

  All-delete : (k : String) (m : Dict String V) → All (λ e. P e.1) m → All (λ e. P e.1) (delete k m)
  unfolding delete
  All-delete k [] a = tt
  All-delete k ((j, w) ∷ m) a = elim (=?-cases j k) [
    | inl (t, q) ↦ rw t (All-delete k m a.1)
    | inr (t, q) ↦ rw t (a.0, All-delete k m a.1)
  ]

  pub All-lookup :
      (k : String) (m : Dict String V) (v : V) → All (λ e. P e.1) m → lookup k m ≡ some v → P v
  unfolding lookup
  All-lookup k [] v a h = cc h
  All-lookup k ((j, w) ∷ m) v a h = elim (=?-cases j k) [
    | inl (t, q) ↦ let same : w ≡ v = ground (arith, rw t at h) in subst P same a.0
    | inr (t, q) ↦ All-lookup k m v a.1 (rw t at h)
  ]

-- An address is dropped as soon as it has tried enough ports within the window.
abbrev pub FewPorts : Tracked → Type 0
FewPorts tr = length tr.ports < threshold

abbrev pub Capped : Tracked → Type 0
Capped tr = (length tr.ports ≤ max_network_ports) × (length tr.addrs ≤ max_network_ports)

-- A table of the analyzer: not too many entries, and none too large.
abbrev pub Small : (Tracked → Type 0) → Dict String Tracked → Type 0
Small P m = (length m ≤ max_tracked) × All (λ e. P e.1) m

pub record IsBounded (a : Analyzer) : Type 0 where
  pub sources : Small FewPorts a.sources
  pub networks : Small Capped a.networks

module _ (P : Tracked → Type 0) where
  start_over-Small : (m : Dict String Tracked) → Small P m → Small P (start_over m)
  start_over-Small m s = elim (Bool-cases (leb max_tracked (length m))) [
    | inl t ↦ rw t (omega arith, tt)
    | inr t ↦ rw t s
  ]

  retain-Small :
      (f : String → Tracked → Bool) (m : Dict String Tracked) → Small P m → Small P (retain f m)
  retain-Small f m s = (omega (arith, length-retain-le f m, s.0), All-retain P f m s.1)

  set-Small :
      (k : String) (v : Tracked) (m : Dict String Tracked)
      → P v
      → has k m ≡ true
      → Small P m
      → Small P (insert k v m)
  set-Small k v m p h s = (ground (arith, length-insert k v m, h, s.0), All-insert P k v m p s.1)

  add-Small :
      (k : String) (v : Tracked) (m : Dict String Tracked)
      → P v
      → length m < max_tracked
      → Small P m
      → Small P (insert k v m)
  add-Small k v m p h s = (ground (arith, length-insert k v m, h), All-insert P k v m p s.1)

  pub delete-Small : (k : String) (m : Dict String Tracked) → Small P m → Small P (delete k m)
  delete-Small k m s = (omega (arith, length-delete-le k m, s.0), All-delete P k m s.1)

start_over_room : (m : Dict String Tracked) → length (start_over m) < max_tracked
start_over_room m = ground arith

pub prune-IsBounded :
    (a : Analyzer) (now : Time) (full : Bool) → IsBounded a → IsBounded (prune a now full)
unfolding prune
prune-IsBounded a now false i = record {
  sources = retain-Small FewPorts _ a.sources i.sources;
  networks = retain-Small Capped _ a.networks i.networks;
}
prune-IsBounded a now true i = record {
  sources = start_over-Small FewPorts _ (retain-Small FewPorts _ a.sources i.sources);
  networks = start_over-Small Capped _ (retain-Small Capped _ a.networks i.networks);
}

-- The entry of a key, if there is one, or room for it.
unfoldable pub Ready : Dict String Tracked → String → Type 0
Ready m k = (has k m ≡ true) ⊎ (length m < max_tracked)

pub put-Small :
    (P : Tracked → Type 0) (k : String) (v : Tracked) (m : Dict String Tracked)
    → P v
    → Ready m k
    → Small P m
    → Small P (insert k v m)
unfolding Ready
put-Small P k v m p (inl h) s = set-Small P k v m p h s
put-Small P k v m p (inr h) s = add-Small P k v m p h s

judge_address-IsBounded :
    (a : Analyzer) (key : String) (now : Time) (tr : Tracked)
    → IsBounded a
    → Ready a.sources key
    → IsBounded (judge_address a key now tr).0
unfolding judge_address
judge_address-IsBounded a key now tr i r = elim (Bool-cases (ltb (length tr.ports) threshold)) [
  | inl t ↦ rw t (record {
    sources = put-Small FewPorts key tr a.sources (ground (arith, t)) r i.sources;
    networks = i.networks;
  })
  | inr t ↦ elim (Bool-cases (ltb (length (recent tr.ports now)) threshold)) [
    | inl u ↦
        rw (t, u)
          (record {
            sources = put-Small FewPorts key _ a.sources (ground (arith, u)) r i.sources;
            networks = i.networks;
          })
    | inr u ↦
        rw (t, u)
          (record {
            sources = delete-Small FewPorts key a.sources i.sources;
            networks = i.networks;
          })
  ]
]

room_Ready :
    (a : Analyzer) (now : Time)
    → length (room a now (leb max_tracked (length a.sources))).sources < max_tracked
unfolding prune
room_Ready a now = ground arith

pub room_Ready_n :
    (a : Analyzer) (now : Time)
    → length (room a now (leb max_tracked (length a.networks))).networks < max_tracked
unfolding prune
room_Ready_n a now = ground arith

pub room-IsBounded :
    (a : Analyzer) (now : Time) (full : Bool) → IsBounded a → IsBounded (room a now full)
room-IsBounded a now false i = i
room-IsBounded a now true i = prune-IsBounded a now true i

count_address-IsBounded :
    (a : Analyzer) (key : String) (port : ℕ) (now : Time)
    → IsBounded a
    → IsBounded (count_address a key port now).0
unfolding count_address Ready
count_address-IsBounded a key port now i = elim (Option-cases (lookup key a.sources)) [
  | inr (tr, l) ↦
      rw (l, count_address)
        (judge_address-IsBounded a key now (tried port now tr) i (inl (ap is_some l)))
  | inl l ↦
      rw (l, count_address)
        (judge_address-IsBounded _ key now _ (room-IsBounded a now _ i) (inr (room_Ready a now)))
]

pub observe_address-IsBounded :
    (a : Analyzer) (key : String) (port : ℕ) (now : Time)
    → IsBounded a
    → IsBounded (observe_address a key port now).0
unfolding observe_address
observe_address-IsBounded a key port now i = elim (Option-cases (lookup key a.reported)) [
  | inl l ↦ rw (l, observe_address) (count_address-IsBounded a key port now i)
  | inr (t, l) ↦ elim (Bool-cases (sub_lt now t cooldown)) [
    | inl u ↦ rw (l, observe_address, u) i
    | inr u ↦
        rw (l, observe_address, u)
          (count_address-IsBounded _ key port now
            (record { sources = i.sources; networks = i.networks }))
  ]
]
