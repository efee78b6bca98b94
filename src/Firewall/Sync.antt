-- ===== src/Firewall/Sync.antt =====
-- internal/firewall/rules.go and cmd/infrafence-agent/main.go: a sync of the dashboard's rules while
-- rules are applied and removed by ID.
use infrafence_agent.Base.{
  ℕ, ◌+◌, ◌≤◌, ◌<◌, Bool, true, false, not, ◌&&◌, ◌||◌, Option, none, some, List, [], ◌∷◌, ◌++◌,
  ◌==◌, if◌then◌else◌, any-append, length, length-append, ==_iff, is_some, ◌≡◌, refl, ap, ◌∙◌,
  subst, arith, Bool-cases, inl, inr,
}
use infrafence_agent.Base.Dict.{lookup, lookup-insert, lookup-delete}
use infrafence_agent.Base.Keys.{nat_key}
use infrafence_agent.Base.Text.{codes, same}
use infrafence_agent.Firewall.Lines.{Line}
use infrafence_agent.Firewall.ById.{
  RuleSpec, build_rule_args, Rules, next_gen, apply_rule_id, zero_or, rule_removed_since, listed,
  reconcile_rules,
}
use infrafence_agent.Firewall.Consistent.{
  IsConsistent, count_limit, next_gen-eq, apply_rule_id-IsConsistent,
}

-- A rule as a sync lists it.
pub record DashboardRule : Type 0 where
  pub id : ℕ
  pub country : Line
  pub status : Line
  pub spec : RuleSpec

-- A country rule has a code, and a rule is applied while it is pending or synced.
unfoldable pub is_applicable : DashboardRule → Bool
is_applicable r =
    same r.country [] && (same r.status (codes "pending") || same r.status (codes "synced"))

-- One round of the loop: the rules after it, and the ID that it adds to those in force.
unfoldable pub sync_rule : ℕ → DashboardRule → Rules → Rules × List ℕ
unfolding is_applicable rule_removed_since apply_rule_id
sync_rule gen r s =
    if is_applicable r && not (rule_removed_since r.id gen s)
    then ((apply_rule_id r.id r.spec s).0, r.id ∷ [])
    else (s, [])

unfoldable pub sync_each : ℕ → List DashboardRule → Rules → Rules × List ℕ
unfolding sync_rule
sync_each gen [] s = (s, [])
sync_each gen (r ∷ rs) s =
    let (s1, one) = sync_rule gen r s in let (s2, ids) = sync_each gen rs s1 in (s2, one ++ ids)

-- The part of a sync that is about rules: nothing is reconciled with an empty list.
unfoldable pub sync_rules : ℕ → List DashboardRule → Rules → Rules
unfolding sync_each reconcile_rules
sync_rules gen [] s = s
sync_rules gen (r ∷ rs) s =
    let (s', ids) = sync_each gen (r ∷ rs) s in (reconcile_rules gen ids s').0

abbrev pub or_else : Option RuleSpec → Option RuleSpec → Option RuleSpec
or_else none b = b
or_else (some a) b = some a

-- What the list says of an ID: the last rule of this ID that applies; none when it was removed since
-- the sync was asked for.
unfoldable pub wanted : Bool → ℕ → List DashboardRule → Option RuleSpec
unfolding is_applicable
wanted gone id [] = none
wanted gone id (r ∷ rs) =
    or_else (wanted gone id rs)
      (if is_applicable r && r.id == id && not gone then some r.spec else none)

abbrev pub args_or : Option RuleSpec → Option (List Line) → Option (List Line)
args_or none old = old
args_or (some spec) old = some (build_rule_args spec)

abbrev pub TouchedOr : Option RuleSpec → ℕ → Option ℕ → Option ℕ → Type 0
TouchedOr none gen old now = now ≡ old
TouchedOr (some spec) gen old now = gen < zero_or now

-- What a stretch of the loop does to one ID.
pub record Synced (gen id : ℕ) (s : Rules) (want : Option RuleSpec) (s' : Rules) (ids : List ℕ)
    : Type 0 where
  pub args_are : lookup id s'.args ≡ args_or want (lookup id s.args)
  pub ids_are : listed id ids ≡ is_some want
  pub touched_are : TouchedOr want gen (lookup id s.touched) (lookup id s'.touched)
  pub removed_are : rule_removed_since id gen s' ≡ rule_removed_since id gen s
  pub consistent : IsConsistent s'
  pub count : s'.gen ≤ s.gen + length ids
  pub grows : s.gen ≤ s'.gen

apply_rule_id-Synced :
    (gen id : ℕ) (j : ℕ) (spec : RuleSpec) (s : Rules)
    → IsConsistent s
    → gen ≤ s.gen
    → s.gen + 1 < count_limit
    → rule_removed_since j gen s ≡ false
    → Synced gen id s (if j == id then some spec else none) (apply_rule_id j spec s).0 (j ∷ [])
unfolding apply_rule_id listed rule_removed_since
apply_rule_id-Synced gen id j spec s c le lt f = record {
  args_are = ground (arith, lookup-insert j id (build_rule_args spec) s.args);
  ids_are = ground arith;
  touched_are = ground (arith, next_gen-eq s.gen lt, lookup-insert j id (next_gen s.gen) s.touched);
  removed_are =
      ground (arith, lookup-insert j id (next_gen s.gen) s.touched, lookup-delete j id s.removed);
  consistent = apply_rule_id-IsConsistent s c j spec lt;
  count = omega (arith, next_gen-eq s.gen lt);
  grows = omega (arith, next_gen-eq s.gen lt);
}

skip-Synced : (gen id : ℕ) (s : Rules) → IsConsistent s → Synced gen id s none s []
unfolding listed
skip-Synced gen id s c = record {
  args_are = refl;
  ids_are = refl;
  touched_are = refl;
  removed_are = refl;
  consistent = c;
  count = omega arith;
  grows = omega arith;
}

wanted_now : Bool → ℕ → DashboardRule → Option RuleSpec
unfolding is_applicable
wanted_now gone id r = if is_applicable r && r.id == id && not gone then some r.spec else none

removed_same :
    (j id gen : ℕ) (s : Rules)
    → (j == id) ≡ true
    → rule_removed_since j gen s ≡ rule_removed_since id gen s
removed_same j id gen s h = ap (λ k. rule_removed_since k gen s) ((==_iff j id).0 h)

wanted_gone :
    (j id gen : ℕ) (spec : RuleSpec) (s : Rules)
    → rule_removed_since j gen s ≡ true
    → (if j == id && not (rule_removed_since id gen s) then some spec else none) ≡ none
wanted_gone j id gen spec s h = ground (arith, removed_same j id gen s)

wanted_there :
    (j id gen : ℕ) (spec : RuleSpec) (s : Rules)
    → rule_removed_since j gen s ≡ false
    → (if j == id && not (rule_removed_since id gen s) then some spec else none)
      ≡ (if j == id then some spec else none)
wanted_there j id gen spec s h = ground (arith, removed_same j id gen s)

sync_rule-Synced :
    (gen id : ℕ) (r : DashboardRule) (s : Rules)
    → IsConsistent s
    → gen ≤ s.gen
    → s.gen + 1 < count_limit
    → let (s', ids) = sync_rule gen r s in
      Synced gen id s (wanted_now (rule_removed_since id gen s) id r) s' ids
unfolding sync_rule wanted_now
sync_rule-Synced gen id r s c le lt = elim (Bool-cases (is_applicable r)) [
  | inr t ↦ rw t (skip-Synced gen id s c)
  | inl t ↦ elim (Bool-cases (rule_removed_since r.id gen s)) [
    | inl gone ↦ rw (t, gone, wanted_gone r.id id gen r.spec s gone) (skip-Synced gen id s c)
    | inr there ↦
        rw (t, there, wanted_there r.id id gen r.spec s there)
          (apply_rule_id-Synced gen id r.id r.spec s c le lt there)
  ]
]

listed-append : (id : ℕ) (xs ys : List ℕ) → listed id (xs ++ ys) ≡ (listed id xs || listed id ys)
unfolding listed
listed-append id xs ys = any-append (λ k. k == id) xs ys

Synced-then :
    (gen id : ℕ) (s s1 s2 : Rules) (want1 want2 : Option RuleSpec) (ids1 ids2 : List ℕ)
    → Synced gen id s want1 s1 ids1
    → Synced gen id s1 want2 s2 ids2
    → Synced gen id s (or_else want2 want1) s2 (ids1 ++ ids2)
Synced-then gen id s s1 s2 w1 none ids1 ids2 a b = record {
  args_are = rw b.args_are a.args_are;
  ids_are = listed-append id ids1 ids2 ∙ ground (arith, a.ids_are, b.ids_are);
  touched_are = rw b.touched_are a.touched_are;
  removed_are = b.removed_are ∙ a.removed_are;
  consistent = b.consistent;
  count = omega (arith, a.count, b.count, length-append ids1 ids2);
  grows = omega (arith, a.grows, b.grows);
}
Synced-then gen id s s1 s2 w1 (some spec) ids1 ids2 a b = record {
  args_are = b.args_are;
  ids_are = listed-append id ids1 ids2 ∙ ground (arith, a.ids_are, b.ids_are);
  touched_are = b.touched_are;
  removed_are = b.removed_are ∙ a.removed_are;
  consistent = b.consistent;
  count = omega (arith, a.count, b.count, length-append ids1 ids2);
  grows = omega (arith, a.grows, b.grows);
}

length-sync_rule-le : (gen : ℕ) (r : DashboardRule) (s : Rules) → length (sync_rule gen r s).1 ≤ 1
unfolding sync_rule
length-sync_rule-le gen r s = ground arith

pub sync_each-Synced :
    (gen id : ℕ) (rs : List DashboardRule) (s : Rules)
    → IsConsistent s
    → gen ≤ s.gen
    → s.gen + length rs < count_limit
    → let (s', ids) = sync_each gen rs s in
      Synced gen id s (wanted (rule_removed_since id gen s) id rs) s' ids
unfolding sync_each wanted wanted_now
sync_each-Synced gen id [] s c le lt = skip-Synced gen id s c
sync_each-Synced gen id (r ∷ rs) s c le lt =
    let one = sync_rule-Synced gen id r s c le (omega (arith, lt)) in
    let (s1, ids1) = sync_rule gen r s in
    let (s2, ids2) = sync_each gen rs s1 in
    let room = length-sync_rule-le gen r s in
    let rest =
      sync_each-Synced gen id rs s1 one.consistent (omega (arith, le, one.grows))
        (omega (arith, lt, one.count, room)) in
    Synced-then gen id s s1 s2 _ (wanted (rule_removed_since id gen s) id rs) ids1 ids2 one
      (subst (λ b. Synced gen id s1 (wanted b id rs) s2 ids2) one.removed_are rest)
