-- ===== src/Firewall/Survivors.antt =====
-- internal/firewall/rules.go: what the agent still knows of the last change of an ID, over a sequence of changes.
use infrafence_agent.Base.{
  ℕ, ◌+◌, ◌≤◌, ◌<◌, Bool, true, false, List, [], ◌∷◌, length, ◌≡◌, refl, arith, All,
}
use infrafence_agent.Base.Dict.{has}
use infrafence_agent.Base.Keys.{nat_key}
use infrafence_agent.Firewall.ById.{
  Rules, apply_rule_id, remove_known, remove_rule_id, reconcile_rules,
}
use infrafence_agent.Firewall.Consistent.{
  IsConsistent, count_limit, next_gen-eq, apply_rule_id-IsConsistent, remove_rule_id-IsConsistent,
  reconcile_rules-IsConsistent,
}
use infrafence_agent.Firewall.Changes.{
  Change, applied, removed, reconciled, change, change_all, NoLater, Last, then_last, last_of,
  Tracks, applied-Tracks, removed-Tracks, reconciled-Tracks,
}

pub record Kept (gen n : ℕ) (s s' : Rules) : Type 0 where
  pub consistent : IsConsistent s'
  pub grows : s.gen ≤ s'.gen
  pub count : s'.gen ≤ s.gen + n

remove_known-gen : (b : Bool) (s : Rules) → (remove_known b s).0.gen ≡ s.gen
unfolding remove_known
remove_known-gen false s = refl
remove_known-gen true s = refl

pub change-Kept :
    (gen : ℕ) (c : Change) (s : Rules)
    → IsConsistent s
    → s.gen + 1 < count_limit
    → Kept gen 1 s (change c s)
unfolding change apply_rule_id remove_rule_id reconcile_rules
change-Kept gen (applied id spec) s i lt = record {
  consistent = apply_rule_id-IsConsistent s i id spec lt;
  grows = omega (arith, next_gen-eq s.gen lt);
  count = omega (arith, next_gen-eq s.gen lt);
}
change-Kept gen (removed id) s i lt = record {
  consistent = remove_rule_id-IsConsistent s id i lt;
  grows = omega (arith, next_gen-eq s.gen lt, remove_known-gen (has id s.args) _);
  count = omega (arith, next_gen-eq s.gen lt, remove_known-gen (has id s.args) _);
}
change-Kept gen (reconciled g keep) s i lt = record {
  consistent = reconcile_rules-IsConsistent s i g keep;
  grows = omega arith;
  count = omega arith;
}

pub change-Tracks :
    (gen id : ℕ) (c : Change) (s : Rules) (l : Last)
    → IsConsistent s
    → gen ≤ s.gen
    → s.gen + 1 < count_limit
    → NoLater gen c
    → Tracks gen id s l
    → Tracks gen id (change c s) (then_last id l c)
unfolding change
change-Tracks gen id (applied j spec) s l i le lt n h = applied-Tracks gen id j spec s l le lt h
change-Tracks gen id (removed j) s l i le lt n h = removed-Tracks gen id j s l le lt h
change-Tracks gen id (reconciled g keep) s l i le lt n h = reconciled-Tracks gen id g keep s l i n h

pub change_all-Tracks :
    (gen id : ℕ) (cs : List Change) (s : Rules) (l : Last)
    → IsConsistent s
    → gen ≤ s.gen
    → s.gen + length cs < count_limit
    → All (NoLater gen) cs
    → Tracks gen id s l
    → Kept gen (length cs) s (change_all cs s) × Tracks gen id (change_all cs s) (last_of id l cs)
unfolding change_all
change_all-Tracks gen id [] s l i le lt n h =
    (record { consistent = i; grows = omega arith; count = omega arith }, h)
change_all-Tracks gen id (c ∷ cs) s l i le lt n h =
    let one = change-Kept gen c s i (omega (arith, lt)) in
    let now = change-Tracks gen id c s l i le (omega (arith, lt)) n.0 h in
    let (k, t) =
      change_all-Tracks gen id cs (change c s) (then_last id l c) one.consistent
        (omega (arith, le, one.grows)) (omega (arith, lt, one.count)) n.1 now in
    (
      record {
        consistent = k.consistent;
        grows = omega (arith, one.grows, k.grows);
        count = omega (arith, one.count, k.count);
      },
      t,
    )
