-- ===== src/Firewall/Changes.antt =====
-- internal/firewall/rules.go: changes by ID that come between the request of a sync and its answer.
use infrafence_agent.Base.{
  ℕ, ◌+◌, ◌≤◌, ◌<◌, true, not, none, some, List, [], ◌∷◌, ◌==◌, if◌then◌else◌, ◌≡◌, arith,
}
use infrafence_agent.Base.Dict.{lookup, lookup-insert, lookup-delete, lookup-retain}
use infrafence_agent.Base.Keys.{nat_key}
use infrafence_agent.Firewall.ById.{
  RuleSpec, build_rule_args, Rules, next_gen, apply_rule_id, remove_known, remove_rule_id, zero_or,
  rule_removed_since, still_in_force, forgotten, reconcile_rules,
}
use infrafence_agent.Firewall.Consistent.{
  IsConsistent, count_limit, next_gen-eq, lookup-still_in_force,
}

-- A call of one of the functions that change the rules.
pub data Change : Type 0 where
  applied : ℕ → RuleSpec → Change
  removed : ℕ → Change
  reconciled : ℕ → List ℕ → Change

unfoldable pub change : Change → Rules → Rules
unfolding apply_rule_id remove_rule_id reconcile_rules
change (applied id spec) s = (apply_rule_id id spec s).0
change (removed id) s = (remove_rule_id id s).0
change (reconciled gen keep) s = (reconcile_rules gen keep s).0

unfoldable pub change_all : List Change → Rules → Rules
unfolding change
change_all [] s = s
change_all (c ∷ cs) s = change_all cs (change c s)

-- The reconciliations are of syncs that were asked for no later than this one.
abbrev pub NoLater : ℕ → Change → Type 0
NoLater gen (applied id spec) = Unit
NoLater gen (removed id) = Unit
NoLater gen (reconciled g keep) = g ≤ gen

-- The last of the changes that names an ID.
pub data Last : Type 0 where
  untouched : Last
  put : RuleSpec → Last
  gone : Last

abbrev pub then_last : ℕ → Last → Change → Last
then_last id l (applied j spec) = if j == id then put spec else l
then_last id l (removed j) = if j == id then gone else l
then_last id l (reconciled gen keep) = l

abbrev pub last_of : ℕ → Last → List Change → Last
last_of id l [] = l
last_of id l (c ∷ cs) = last_of id (then_last id l c) cs

-- What the agent still knows of that change.
abbrev pub Tracks : ℕ → ℕ → Rules → Last → Type 0
Tracks gen id s untouched = Unit
Tracks gen id s (put spec) =
    (lookup id s.args ≡ some (build_rule_args spec)) × (gen < zero_or (lookup id s.touched))
Tracks gen id s gone = (lookup id s.args ≡ none) × (rule_removed_since id gen s ≡ true)

pub applied-Tracks :
    (gen id j : ℕ) (spec : RuleSpec) (s : Rules) (l : Last)
    → gen ≤ s.gen
    → s.gen + 1 < count_limit
    → Tracks gen id s l
    → Tracks gen id (apply_rule_id j spec s).0 (if j == id then put spec else l)
unfolding apply_rule_id rule_removed_since
applied-Tracks gen id j spec s l le lt h = ground (
  arith,
  next_gen-eq s.gen lt,
  lookup-insert j id (next_gen s.gen) s.touched,
  lookup-insert j id (build_rule_args spec) s.args,
  lookup-delete j id s.removed,
)

pub removed-Tracks :
    (gen id j : ℕ) (s : Rules) (l : Last)
    → gen ≤ s.gen
    → s.gen + 1 < count_limit
    → Tracks gen id s l
    → Tracks gen id (remove_rule_id j s).0 (if j == id then gone else l)
unfolding remove_rule_id remove_known rule_removed_since
removed-Tracks gen id j s l le lt h = ground (
  arith,
  next_gen-eq s.gen lt,
  lookup-insert j id (next_gen s.gen) s.touched,
  lookup-delete j id s.args,
  lookup-insert j id true s.removed,
)

pub reconciled-Tracks :
    (gen id g : ℕ) (keep : List ℕ) (s : Rules) (l : Last)
    → IsConsistent s
    → g ≤ gen
    → Tracks gen id s l
    → Tracks gen id (reconcile_rules g keep s).0 l
unfolding reconcile_rules rule_removed_since forgotten
reconciled-Tracks gen id g keep s l c le h =
    let args = still_in_force g keep s.touched s.args in
    ground (
      arith,
      lookup-still_in_force g keep s.touched s.args id c.args_distinct,
      lookup-retain (λ i k. not (forgotten g args (lookup i s.touched) i)) id s.touched
          c.touched_distinct,
      lookup-retain (λ i b. not (forgotten g args (lookup i s.touched) i)) id s.removed
          c.removed_distinct,
    )
