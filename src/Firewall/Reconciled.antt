-- ===== src/Firewall/Reconciled.antt =====
-- internal/firewall/rules.go and cmd/infrafence-agent/main.go: what a whole sync leaves of the rules.
use infrafence_agent.Base.{
  ℕ, ◌+◌, ◌≤◌, ◌<◌, true, Option, none, some, List, [], ◌∷◌, ltb, ◌==◌, if◌then◌else◌, length,
  ==_iff, ◌≡◌, refl, ap, ◌∙◌, arith, Bool-cases, inl, inr,
}
use infrafence_agent.Base.Dict.{Dict, lookup, Distinct}
use infrafence_agent.Base.Keys.{nat_key}
use infrafence_agent.Firewall.Lines.{Line}
use infrafence_agent.Firewall.ById.{
  RuleSpec, equal, Rules, in_force, zero_or, rule_removed_since, still_in_force, reconcile_rules,
}
use infrafence_agent.Firewall.Holding.{holds, equal-eq, drop_unused-holds}
use infrafence_agent.Firewall.Consistent.{
  IsConsistent, count_limit, lookup-still_in_force, reconcile_rules-IsConsistent,
}
use infrafence_agent.Firewall.Sync.{
  DashboardRule, sync_each, sync_rules, wanted, args_or, Synced, sync_each-Synced,
}

-- What reconciling with the IDs of the loop leaves of one ID.
reconciled :
    (gen id : ℕ) (s s2 : Rules) (want : Option RuleSpec) (ids : List ℕ)
    → Synced gen id s want s2 ids
    → lookup id (reconcile_rules gen ids s2).0.args
      ≡ args_or want (if ltb gen (zero_or (lookup id s.touched)) then lookup id s.args else none)
unfolding reconcile_rules
reconciled gen id s s2 none ids a =
    lookup-still_in_force gen ids s2.touched s2.args id a.consistent.args_distinct
    ∙ rw (a.ids_are, a.touched_are, a.args_are) refl
reconciled gen id s s2 (some spec) ids a =
    lookup-still_in_force gen ids s2.touched s2.args id a.consistent.args_distinct
    ∙ rw (a.ids_are, a.args_are) refl

lookup_same : (j id : ℕ) (m : Dict ℕ (List Line)) → (j == id) ≡ true → lookup j m ≡ lookup id m
lookup_same j id m h = ap (λ k. lookup k m) ((==_iff j id).0 h)

-- An entry that stands for arguments is found under some ID.
in_force-lookup :
    (m : Dict ℕ (List Line)) (a : List Line)
    → Distinct m
    → in_force m a ≡ true
    → (id : ℕ) × (lookup id m ≡ some a)
unfolding in_force lookup
in_force-lookup [] a d h = absurd (cc)
in_force-lookup ((j, b) ∷ m) a d h = elim (Bool-cases (equal a b)) [
  | inl t ↦ (j, ground (arith, equal-eq a b))
  | inr t ↦
      let (id, e) = in_force-lookup m a d.1 (ground arith) in
      (id, ground (arith, lookup_same j id m, d.0, e))
]

-- After a reconciliation the chain's rules are those that the IDs in force stand for.
reconcile_rules-holds :
    (gen : ℕ) (keep : List ℕ) (s : Rules) (a : List Line)
    → IsConsistent s
    → holds (reconcile_rules gen keep s).0.user_rules a
      ≡ in_force (reconcile_rules gen keep s).0.args a
unfolding reconcile_rules
reconcile_rules-holds gen keep s a c =
    let args = still_in_force gen keep s.touched s.args in
    elim (Bool-cases (in_force args a)) [
      | inr t ↦ ground (arith, drop_unused-holds args s.user_rules a)
      | inl t ↦
          let (id, e) =
            in_force-lookup args a (reconcile_rules-IsConsistent s c gen keep).args_distinct t in
          ground (
            arith,
            drop_unused-holds args s.user_rules a,
            lookup-still_in_force gen keep s.touched s.args id c.args_distinct,
            c.covered id a,
            e,
          )
    ]

-- After a sync that lists rules, each ID stands for the last rule listed for it, unless it was removed
-- since the sync was asked for; an ID that the sync does not give is in force only if it was applied
-- since, as it was. The chain holds exactly the rules of the IDs in force.
pub sync_rules_lem :
    (gen : ℕ) (r : DashboardRule) (rs : List DashboardRule) (s : Rules)
    → IsConsistent s
    → gen ≤ s.gen
    → s.gen + length (r ∷ rs) < count_limit
    → let s' = sync_rules gen (r ∷ rs) s in
      ((id : ℕ)
        → lookup id s'.args
          ≡ args_or
              (wanted (rule_removed_since id gen s) id (r ∷ rs))
              (if ltb gen (zero_or (lookup id s.touched)) then lookup id s.args else none))
      × ((a : List Line) → holds s'.user_rules a ≡ in_force s'.args a)
      × IsConsistent s'
unfolding sync_rules
sync_rules_lem gen r rs s c le lt =
    let (s2, ids) = sync_each gen (r ∷ rs) s in
    let all = λ (id : ℕ). sync_each-Synced gen id (r ∷ rs) s c le lt in
    (
      λ id. reconciled gen id s s2 (wanted (rule_removed_since id gen s) id (r ∷ rs)) ids (all id),
      λ a. reconcile_rules-holds gen ids s2 a (all 0).consistent,
      reconcile_rules-IsConsistent s2 (all 0).consistent gen ids,
    )
