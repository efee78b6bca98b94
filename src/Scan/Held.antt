-- ===== src/Scan/Held.antt =====
-- internal/scanwatch/analyzer.go: when an address was last reported, as the analyzer remembers it.
use infrafence_agent.Base.{
  ℕ, ◌+◌, ◌≤◌, ◌≡◌, refl, subst, ◌∙◌, ◌⊎◌, Bool, true, false, not, ◌||◌, Option, none, some, String,
  ltb, leb, if◌then◌else◌, length, arith, Bool-cases, Option-cases, inl, inr,
}
use infrafence_agent.Base.Dict.{
  Dict, lookup, insert, delete, Distinct, lookup-retain, lookup-delete, delete-Distinct,
  retain-Distinct,
}
use infrafence_agent.Base.Keys.{string_key, nat_key, ◌=?◌, =?-cases}
use infrafence_agent.Base.Time.{Time, sub_lt, sub_gt}
use infrafence_agent.Scan.Analyzer.{
  threshold, cooldown, network_cooldown, network_threshold, network_addresses, max_tracked, Tracked,
  Analyzer, Scan, recent, prune, room, no_track, tried, tried_in, judge_address, count_address,
  observe_address, judge_network, count_network, observe_network,
}

-- A report that is remembered stays so, until the cooldown is over.
abbrev pub Held : Time → Option Time → Option Time → Type 0
Held now o o' = (o' ≡ o) ⊎ ((o' ≡ none) × ((t : Time) → o ≡ some t → t + cooldown ≤ now))

pub Held_after :
    (now : Time) (o o' o'' : Option Time) → Held now o o' → Held now o' o'' → Held now o o''
Held_after now o o' o'' (inl e) (inl f) = inl (f ∙ e)
Held_after now o o' o'' (inl e) (inr (f, g)) = inr (f, λ t q. g t (e ∙ q))
Held_after now o o' o'' (inr (e, g)) (inl f) = inr (f ∙ e, g)
Held_after now o o' o'' (inr (e, g)) (inr (f, h)) = inr (f, g)

-- The reports that are remembered afterwards.
pub record Kept (now : Time) (before after : Dict String Time) : Type 0 where
  pub distinct : Distinct after
  pub held : (k : String) → Held now (lookup k before) (lookup k after)

pub same-Kept : (now : Time) (m : Dict String Time) → Distinct m → Kept now m m
same-Kept now m d = record { distinct = d; held = λ k. inl refl }

held_retained :
    (now : Time) (o : Option Time)
    → Held now o
        (elim o [ none ↦ none | some t ↦ if not (sub_gt now t cooldown) then some t else none ])
held_retained now none = inl refl
held_retained now (some t) = elim (Bool-cases (sub_gt now t cooldown)) [
  | inl g ↦ rw g (inr (refl, λ u q. ground (arith, g, q)))
  | inr g ↦ rw g (inl refl)
]

pub prune-Kept :
    (a : Analyzer) (now : Time) (full : Bool)
    → Distinct a.reported
    → Kept now a.reported (prune a now full).reported
unfolding prune
prune-Kept a now full d = record {
  distinct = retain-Distinct _ a.reported d;
  held = λ k.
      rw (lookup-retain (λ j t. not (sub_gt now t cooldown)) k a.reported d)
        (held_retained now (lookup k a.reported));
}

room-Kept :
    (a : Analyzer) (now : Time) (full : Bool)
    → Distinct a.reported
    → Kept now a.reported (room a now full).reported
room-Kept a now false d = same-Kept now a.reported d
room-Kept a now true d = prune-Kept a now true d

-- An observation of an address: no report, or one that is remembered.
abbrev pub Judged : String → Time → Dict String Time → Analyzer × Option Scan → Type 0
Judged key now rep r =
    ((r.1 ≡ none) × (r.0.reported ≡ rep))
    ⊎ ((s : Scan) × (r.1 ≡ some s) × (s.ip ≡ key) × (r.0.reported ≡ insert key now rep))

judge_address-Judged :
    (a : Analyzer) (key : String) (now : Time) (tr : Tracked)
    → Judged key now a.reported (judge_address a key now tr)
unfolding judge_address
judge_address-Judged a key now tr = elim (Bool-cases (ltb (length tr.ports) threshold)) [
  | inl t ↦ rw t (inl (refl, refl))
  | inr t ↦ elim (Bool-cases (ltb (length (recent tr.ports now)) threshold)) [
    | inl u ↦ rw (t, u) (inl (refl, refl))
    | inr u ↦ rw (t, u) (inr (_, refl, refl, refl))
  ]
]

-- The reports that are remembered before the observation adds its own.
abbrev pub Counted : String → Time → Dict String Time → Analyzer × Option Scan → Type 0
Counted key now before r = (rep : Dict String Time) × Kept now before rep × Judged key now rep r

count_address-Counted :
    (a : Analyzer) (key : String) (port : ℕ) (now : Time)
    → Distinct a.reported
    → Counted key now a.reported (count_address a key port now)
unfolding count_address
count_address-Counted a key port now d = elim (Option-cases (lookup key a.sources)) [
  | inr (tr, l) ↦
      rw (l, count_address)
        (a.reported, same-Kept now a.reported d, judge_address-Judged a key now (tried port now tr))
  | inl l ↦
      let a' = room a now (leb max_tracked (length a.sources)) in
      rw (l, count_address)
        (
          a'.reported,
          room-Kept a now _ d,
          judge_address-Judged a' key now (tried port now no_track),
        )
]

-- Either the address is still in its cooldown and nothing happens, or its last report is as long ago
-- as that, and is forgotten before the attempt counts.
pub data Observed (key : String) (now : Time) (a : Analyzer) (r : Analyzer × Option Scan)
    : Type 0 where
  cooling : r ≡ (a, none) → Observed key now a r
  counted :
      ((t : Time) → lookup key a.reported ≡ some t → t + cooldown ≤ now)
      → (before : Dict String Time)
      → ((k : String) → lookup k before ≡ (if key =? k then none else lookup k a.reported))
      → Counted key now before r
      → Observed key now a r

unreported :
    (key k : String) (m : Dict String Time)
    → lookup key m ≡ none
    → lookup k m ≡ (if key =? k then none else lookup k m)
unreported key k m l = elim (=?-cases key k) [
  | inl (t, q) ↦ rw t (subst (λ j. lookup j m ≡ none) q l)
  | inr (t, q) ↦ rw t refl
]

pub observe_address-Observed :
    (a : Analyzer) (key : String) (port : ℕ) (now : Time)
    → Distinct a.reported
    → Observed key now a (observe_address a key port now)
unfolding observe_address
observe_address-Observed a key port now d = elim (Option-cases (lookup key a.reported)) [
  | inl l ↦
      rw (l, observe_address)
        (counted (λ t q. cc (l, q)) a.reported (λ k. unreported key k a.reported l)
          (count_address-Counted a key port now d))
  | inr (t, l) ↦ elim (Bool-cases (sub_lt now t cooldown)) [
    | inl u ↦ rw (l, observe_address, u) (cooling refl)
    | inr u ↦
        rw (l, observe_address, u)
          (counted (λ v q. ground (arith, u, l, q)) (delete key a.reported)
            (λ k. lookup-delete key k a.reported)
            (count_address-Counted (record a { reported = delete key a.reported }) key port now
              (delete-Distinct key a.reported d)))
  ]
]

judge_network-reported :
    (a : Analyzer) (key addr : String) (now : Time) (tr : Tracked)
    → (judge_network a key addr now tr).0.reported ≡ a.reported
unfolding judge_network
judge_network-reported a key addr now tr =
    elim (Bool-cases
      (ltb (length tr.ports) network_threshold || ltb (length tr.addrs) network_addresses)) [
        | inl t ↦ rw t refl
        | inr t ↦
            elim (Bool-cases (
              ltb (length (recent tr.ports now)) network_threshold
              || ltb (length (recent tr.addrs now)) network_addresses)) [
                | inl u ↦ rw (t, u) refl
                | inr u ↦ rw (t, u) refl
              ]
      ]

count_network-Kept :
    (a : Analyzer) (key addr : String) (port : ℕ) (now : Time)
    → Distinct a.reported
    → Kept now a.reported (count_network a key addr port now).0.reported
unfolding count_network
count_network-Kept a key addr port now d = elim (Option-cases (lookup key a.networks)) [
  | inr (tr, l) ↦
      rw (l, count_network)
        (rw (judge_network-reported a key addr now (tried_in addr port now tr))
          (same-Kept now a.reported d))
  | inl l ↦
      let a' = room a now (leb max_tracked (length a.networks)) in
      rw (l, count_network)
        (rw (judge_network-reported a' key addr now (tried_in addr port now no_track))
          (room-Kept a now _ d))
]

pub observe_network-Kept :
    (a : Analyzer) (key addr : String) (port : ℕ) (now : Time)
    → Distinct a.reported
    → Kept now a.reported (observe_network a key addr port now).0.reported
unfolding observe_network
observe_network-Kept a key addr port now d = elim (Option-cases (lookup key a.reported_n)) [
  | inl l ↦ rw (l, observe_network) (count_network-Kept a key addr port now d)
  | inr (t, l) ↦ elim (Bool-cases (sub_lt now t network_cooldown)) [
    | inl u ↦ rw (l, observe_network, u) (same-Kept now a.reported d)
    | inr u ↦
        rw (l, observe_network, u)
          (count_network-Kept (record a { reported_n = delete key a.reported_n }) key addr port now
            d)
  ]
]
