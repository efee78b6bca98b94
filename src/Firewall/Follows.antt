-- ===== src/Firewall/Follows.antt =====
-- internal/firewall/rules.go: the last change of an ID, with and without the changes of a sync.
use infrafence_agent.Base.{
  ℕ, ◌+◌, true, false, Option, none, some, List, [], ◌∷◌, ◌==◌, length, ◌≡◌, refl, All, ◌⊎◌, inl,
  inr, Bool-cases,
}
use infrafence_agent.Base.Keys.{nat_key}
use infrafence_agent.Firewall.Lines.{Line}
use infrafence_agent.Firewall.ById.{RuleSpec, build_rule_args}
use infrafence_agent.Firewall.Changes.{
  Change, applied, removed, reconciled, Last, untouched, put, gone, then_last, last_of,
}
use infrafence_agent.Firewall.Interleaved.{Round}

-- The last change by another than the sync that names an ID.
abbrev pub last_other : ℕ → Last → List Round → Last
last_other id l [] = l
last_other id l (r ∷ rs) = last_other id (last_of id (last_of id l r.before) r.window) rs

abbrev pub NotRemoved : ℕ → Change → Type 0
NotRemoved id (applied j spec) = Unit
NotRemoved id (removed j) = (j == id) ≡ false
NotRemoved id (reconciled gen keep) = Unit

-- No removal of the ID falls between the check and the application of a rule of that ID.
abbrev pub Unraced : ℕ → Round → Type 0
Unraced id r = (r.rule.id == id) ≡ true → All (NotRemoved id) r.window

-- The rules that the sync lists for an ID.
abbrev pub Lists : ℕ → List Round → RuleSpec → Type 0
Lists id [] spec = ⊥
Lists id (r ∷ rs) spec = ((r.rule.id ≡ id) × (spec ≡ r.rule.spec)) ⊎ Lists id rs spec

abbrev pub count_changes : List Round → ℕ
count_changes [] = 0
count_changes (r ∷ rs) = length r.before + length r.window + 1 + count_changes rs

-- What the last change leads to: a removed rule is not in force, and an applied one is, as it was applied
-- or as the sync lists it.
abbrev pub Respects : (RuleSpec → Type 0) → Last → Option (List Line) → Type 0
Respects listed untouched now = Unit
Respects listed (put spec) now =
    (own : RuleSpec) × (now ≡ some (build_rule_args own)) × ((own ≡ spec) ⊎ listed own)
Respects listed gone now = now ≡ none

-- The last change with those of the sync counted, against the last one by another.
abbrev pub Follows : (RuleSpec → Type 0) → Last → Last → Type 0
Follows listed untouched l = Unit
Follows listed (put spec) l = (own : RuleSpec) × (l ≡ put own) × ((own ≡ spec) ⊎ listed own)
Follows listed gone l = l ≡ gone

module _ (listed : RuleSpec → Type 0) (id : ℕ) where
  pub then_last-Follows :
      (c : Change) (l l' : Last)
      → Follows listed l l'
      → Follows listed (then_last id l c) (then_last id l' c)
  then_last-Follows (applied j spec) l l' h = elim (Bool-cases (j == id)) [
    | inl t ↦ rw t (spec, refl, inl refl)
    | inr t ↦ rw t h
  ]
  then_last-Follows (removed j) l l' h = elim (Bool-cases (j == id)) [
    | inl t ↦ rw t refl
    | inr t ↦ rw t h
  ]
  then_last-Follows (reconciled gen keep) l l' h = h

  pub last_of-Follows :
      (cs : List Change) (l l' : Last)
      → Follows listed l l'
      → Follows listed (last_of id l cs) (last_of id l' cs)
  last_of-Follows [] l l' h = h
  last_of-Follows (c ∷ cs) l l' h =
      last_of-Follows cs (then_last id l c) (then_last id l' c) (then_last-Follows c l l' h)

  pub then_last-not_gone :
      (c : Change) (l : Last) → NotRemoved id c → (l ≡ gone → ⊥) → then_last id l c ≡ gone → ⊥
  then_last-not_gone (applied j spec) l n h = elim (Bool-cases (j == id)) [
    | inl t ↦ rw t (λ e. cc e)
    | inr t ↦ rw t h
  ]
  then_last-not_gone (removed j) l n h = rw n h
  then_last-not_gone (reconciled gen keep) l n h = h

  -- Without a removal an ID that is not gone stays so.
  pub last_of-not_gone :
      (cs : List Change) (l : Last)
      → All (NotRemoved id) cs
      → (l ≡ gone → ⊥)
      → last_of id l cs ≡ gone
      → ⊥
  last_of-not_gone [] l n h e = h e
  last_of-not_gone (c ∷ cs) l n h e =
      last_of-not_gone cs (then_last id l c) n.1 (then_last-not_gone c l n.0 h) e

  pub own-Follows :
      (l : Last) (spec : RuleSpec) → (l ≡ gone → ⊥) → listed spec → Follows listed l (put spec)
  own-Follows untouched spec n h = tt
  own-Follows (put other) spec n h = (spec, refl, inr h)
  own-Follows gone spec n h = absurd (n refl)

  pub Follows-not_gone : (l l' : Last) → Follows listed l l' → (l' ≡ gone → ⊥) → l ≡ gone → ⊥
  Follows-not_gone untouched l' h n e = cc e
  Follows-not_gone (put spec) l' h n e = cc e
  Follows-not_gone gone l' h n e = n h
