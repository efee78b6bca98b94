-- ===== src/Firewall/Consistent.antt =====
-- internal/firewall/rules.go: what each change of the dashboard's rules keeps, whatever the order of
-- the changes.
use infrafence_agent.Base.{
  ℕ, ◌+◌, ◌≤◌, ◌<◌, ◌^◌, Bool, true, false, not, ◌||◌, none, some, List, [], ◌∷◌, ◌++◌, ltb,
  if◌then◌else◌, ◌≡◌, refl, arith, Bool-cases, inl, inr,
}
use infrafence_agent.Base.Dict.{
  Dict, lookup, has, Distinct, lookup-insert, lookup-delete, lookup-retain, insert-Distinct,
  delete-Distinct, retain-Distinct,
}
use infrafence_agent.Base.Keys.{nat_key}
use infrafence_agent.Firewall.Lines.{Line}
use infrafence_agent.Firewall.ById.{
  RuleSpec, build_rule_args, equal, Rules, next_gen, add_user_rule, apply_rule_id, remove_known,
  remove_rule_id, zero_or, listed, still_in_force, forgotten, reconcile_rules,
}
use infrafence_agent.Firewall.Holding.{
  equal_refl, equal-eq, holds, Unique, lookup-in_force, holds-append, equal-same, drop_unused-holds,
  drop_unused-Unique,
}

-- The maps have one entry for each key, no rule stands twice, each ID in force has its rule among
-- them, and no change is newer than the count.
pub record IsConsistent (s : Rules) : Type 0 where
  pub args_distinct : Distinct s.args
  pub touched_distinct : Distinct s.touched
  pub removed_distinct : Distinct s.removed
  pub unique : Unique s.user_rules
  pub covered : (id : ℕ) (a : List Line) → lookup id s.args ≡ some a → holds s.user_rules a ≡ true
  pub old : (id g : ℕ) → lookup id s.touched ≡ some g → g ≤ s.gen

abbrev pub count_limit : ℕ
count_limit = 2 ^ 64

add_user_rule-holds :
    (a b : List Line) (rules : List (List Line))
    → holds (add_user_rule a rules) b ≡ (holds rules b || equal a b)
unfolding add_user_rule
add_user_rule-holds a b rules =
    ground (arith, holds-append rules a b, equal-same (λ c. holds rules c) a b)

equal_flip : (a b : List Line) → equal a b ≡ true → equal b a ≡ true
equal_flip a b h = rw (equal-eq a b h) (equal_refl b)

append-Unique :
    (a : List Line) (rules : List (List Line))
    → Unique rules
    → holds rules a ≡ false
    → Unique (rules ++ a ∷ [])
append-Unique a [] u h = (refl, tt)
append-Unique a (r ∷ rules) u h =
    ground (arith, holds-append rules a r, equal_flip a r, append-Unique a rules u.1)

add_user_rule-Unique :
    (a : List Line) (rules : List (List Line)) → Unique rules → Unique (add_user_rule a rules)
unfolding add_user_rule
add_user_rule-Unique a rules u = elim (Bool-cases (holds rules a)) [
  | inl t ↦ rw t u
  | inr t ↦ rw t (append-Unique a rules u t)
]

pub next_gen-eq : (gen : ℕ) → gen + 1 < count_limit → next_gen gen ≡ gen + 1
unfolding next_gen
next_gen-eq gen lt = omega arith

pub lookup-still_in_force :
    (gen : ℕ) (keep : List ℕ) (touched : Dict ℕ ℕ) (args : Dict ℕ (List Line)) (id : ℕ)
    → Distinct args
    → lookup id (still_in_force gen keep touched args)
      ≡ (if listed id keep || ltb gen (zero_or (lookup id touched)) then lookup id args else none)
unfolding still_in_force
lookup-still_in_force gen keep touched args id d =
    ground (
      arith,
      lookup-retain (λ i a. listed i keep || ltb gen (zero_or (lookup i touched))) id args d,
    )

still_in_force-Distinct :
    (gen : ℕ) (keep : List ℕ) (touched : Dict ℕ ℕ) (args : Dict ℕ (List Line))
    → Distinct args
    → Distinct (still_in_force gen keep touched args)
unfolding still_in_force
still_in_force-Distinct gen keep touched args d = retain-Distinct _ args d

module _ (s : Rules) (c : IsConsistent s) where
  pub apply_rule_id-IsConsistent :
      (id : ℕ) (spec : RuleSpec)
      → s.gen + 1 < count_limit
      → IsConsistent (apply_rule_id id spec s).0
  unfolding apply_rule_id
  apply_rule_id-IsConsistent id spec lt = record {
    args_distinct = insert-Distinct id (build_rule_args spec) s.args c.args_distinct;
    touched_distinct = insert-Distinct id _ s.touched c.touched_distinct;
    removed_distinct = delete-Distinct id s.removed c.removed_distinct;
    unique = add_user_rule-Unique (build_rule_args spec) s.user_rules c.unique;
    covered = λ j a h. ground (
      arith,
      lookup-insert id j (build_rule_args spec) s.args,
      add_user_rule-holds (build_rule_args spec) a s.user_rules,
      equal_refl a,
      c.covered j a,
    );
    old = λ j g h.
        ground
          (arith, next_gen-eq s.gen lt, lookup-insert id j (next_gen s.gen) s.touched, c.old j g);
  }

  remove_known-IsConsistent : (b : Bool) → IsConsistent (remove_known b s).0
  unfolding remove_known
  remove_known-IsConsistent false = c
  remove_known-IsConsistent true = record {
    args_distinct = c.args_distinct;
    touched_distinct = c.touched_distinct;
    removed_distinct = c.removed_distinct;
    unique = drop_unused-Unique s.args s.user_rules c.unique;
    covered = λ j a h.
        ground (
          arith,
          drop_unused-holds s.args s.user_rules a,
          lookup-in_force j a s.args,
          c.covered j a,
        );
    old = c.old;
  }

  pub reconcile_rules-IsConsistent :
      (gen : ℕ) (keep : List ℕ) → IsConsistent (reconcile_rules gen keep s).0
  unfolding reconcile_rules
  reconcile_rules-IsConsistent gen keep =
      let args = still_in_force gen keep s.touched s.args in
      record {
        args_distinct = still_in_force-Distinct gen keep s.touched s.args c.args_distinct;
        touched_distinct = retain-Distinct _ s.touched c.touched_distinct;
        removed_distinct = retain-Distinct _ s.removed c.removed_distinct;
        unique = drop_unused-Unique args s.user_rules c.unique;
        covered = λ j a h. ground (
          arith,
          drop_unused-holds args s.user_rules a,
          lookup-in_force j a args,
          lookup-still_in_force gen keep s.touched s.args j c.args_distinct,
          c.covered j a,
        );
        old = λ j g h. ground (
          arith,
          lookup-retain (λ i k. not (forgotten gen args (lookup i s.touched) i)) j s.touched
              c.touched_distinct,
          c.old j g,
        );
      }

pub remove_rule_id-IsConsistent :
    (s : Rules) (id : ℕ)
    → IsConsistent s
    → s.gen + 1 < count_limit
    → IsConsistent (remove_rule_id id s).0
unfolding remove_rule_id
remove_rule_id-IsConsistent s id c lt =
    remove_known-IsConsistent _
      (record {
        args_distinct = delete-Distinct id s.args c.args_distinct;
        touched_distinct = insert-Distinct id _ s.touched c.touched_distinct;
        removed_distinct = insert-Distinct id _ s.removed c.removed_distinct;
        unique = c.unique;
        covered = λ j a h. ground (arith, lookup-delete id j s.args, c.covered j a);
        old = λ j g h.
            ground (
              arith,
              next_gen-eq s.gen lt,
              lookup-insert id j (next_gen s.gen) s.touched,
              c.old j g,
            );
      })
      (has id s.args)
