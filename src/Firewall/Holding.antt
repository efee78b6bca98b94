-- ===== src/Firewall/Holding.antt =====
-- internal/firewall/rules.go: which rules a list of them holds, and what dropUnusedRuleArgsLocked leaves.
use infrafence_agent.Base.{
  ℕ, Bool, true, false, ◌&&◌, ◌||◌, some, List, [], ◌∷◌, ◌++◌, ◌==◌, any, select, length,
  length-select-le, ◌≡◌, refl, ap, ◌∙◌, sym, arith, Bool-cases, inl, inr,
}
use infrafence_agent.Base.Dict.{Dict, lookup}
use infrafence_agent.Base.Keys.{nat_key}
use infrafence_agent.Base.Text.{same, same_refl, same-eq}
use infrafence_agent.Firewall.Lines.{Line}
use infrafence_agent.Firewall.ById.{equal, in_force, drop_unused}

pub equal_refl : (a : List Line) → equal a a ≡ true
unfolding equal
equal_refl [] = refl
equal_refl (x ∷ xs) = rw (same_refl x, equal_refl xs) refl

pub equal-eq : (a b : List Line) → equal a b ≡ true → a ≡ b
unfolding equal
equal-eq [] [] h = refl
equal-eq [] (y ∷ ys) h = cc
equal-eq (x ∷ xs) [] h = cc
equal-eq (x ∷ xs) (y ∷ ys) h = elim (Bool-cases (same x y)) [
  | inl t ↦ rw (same-eq x y t, equal-eq xs ys (rw (t, equal) at h)) refl
  | inr t ↦ absurd (cc (rw (t, equal) at h))
]

-- The chain's rules hold these arguments.
abbrev pub holds : List (List Line) → List Line → Bool
holds rules a = any rules (λ r. equal r a)

-- No rule stands twice.
abbrev pub Unique : List (List Line) → Type 0
Unique [] = Unit
Unique (r ∷ rs) = (holds rs r ≡ false) × Unique rs

pub lookup-in_force :
    (id : ℕ) (a : List Line) (m : Dict ℕ (List Line)) → lookup id m ≡ some a → in_force m a ≡ true
unfolding lookup in_force
lookup-in_force id a [] h = cc
lookup-in_force id a ((j, b) ∷ m) h = elim (Bool-cases (j == id)) [
  | inl t ↦ ground (arith, equal_refl a)
  | inr t ↦ ground (arith, lookup-in_force id a m)
]

pub holds-append :
    (rules : List (List Line)) (r a : List Line)
    → holds (rules ++ r ∷ []) a ≡ (holds rules a || equal r a)
holds-append [] r a = ground arith
holds-append (x ∷ rules) r a = ground (arith, holds-append rules r a)

pub equal-same : (p : List Line → Bool) (a b : List Line) → equal a b ≡ true → p a ≡ p b
equal-same p a b h = ap p (equal-eq a b h)

-- What a filter keeps.
holds-select :
    (p : List Line → Bool) (rules : List (List Line)) (a : List Line)
    → holds (select p rules) a ≡ (holds rules a && p a)
holds-select p [] a = refl
holds-select p (r ∷ rules) a = ground (arith, holds-select p rules a, equal-same p r a)

select-Unique :
    (p : List Line → Bool) (rules : List (List Line)) → Unique rules → Unique (select p rules)
select-Unique p [] u = tt
select-Unique p (r ∷ rules) u = ground (arith, select-Unique p rules u.1, holds-select p rules r)

-- A filter that drops nothing has kept each rule.
select_full :
    (p : List Line → Bool) (rules : List (List Line))
    → length (select p rules) ≡ length rules
    → select p rules ≡ rules
select_full p [] h = refl
select_full p (r ∷ rules) h = elim (Bool-cases (p r)) [
  | inl t ↦ ground (arith, select_full p rules)
  | inr t ↦ ground (arith, length-select-le p rules)
]

-- What stays is what held and an ID in force stands for.
pub drop_unused-holds :
    (args : Dict ℕ (List Line)) (rules : List (List Line)) (a : List Line)
    → holds (drop_unused args rules).0 a ≡ (holds rules a && in_force args a)
unfolding drop_unused
drop_unused-holds args rules a =
    let kept = select (in_force args) rules in
    elim (Bool-cases (length kept == length rules)) [
      | inl t ↦ rw t (
          ap (λ rs. holds rs a) (sym (select_full (in_force args) rules (ground arith)))
          ∙ holds-select (in_force args) rules a)
      | inr t ↦ rw t (holds-select (in_force args) rules a)
    ]

pub drop_unused-Unique :
    (args : Dict ℕ (List Line)) (rules : List (List Line))
    → Unique rules
    → Unique (drop_unused args rules).0
unfolding drop_unused
drop_unused-Unique args rules u =
    let kept = select (in_force args) rules in
    elim (Bool-cases (length kept == length rules)) [
      | inl t ↦ rw t u
      | inr t ↦ rw t (select-Unique (in_force args) rules u)
    ]
