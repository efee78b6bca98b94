-- ===== src/Bans/Unique.antt =====
-- internal/firewall/bans.go: selecting, sorting and cutting a list of bans repeats no address.
use infrafence_agent.Base.{
  ℕ, zero, suc, Bool, false, none, [], ◌∷◌, String, take, select, ◌≡◌, refl, arith, Bool-cases, inl,
  inr,
}
use infrafence_agent.Base.Dict.{Dict, lookup, Distinct}
use infrafence_agent.Base.Keys.{string_key, ◌=?◌}
use infrafence_agent.Base.Sort.{sort_by, insert_by}
use infrafence_agent.Bans.Registry.{Entry, Bans}

lookup-select :
    (p : String × Entry → Bool) (j : String) (m : Bans)
    → lookup j m ≡ none
    → lookup j (select p m) ≡ none
unfolding lookup
lookup-select p j [] h = refl
lookup-select p j (e ∷ m) h = ground (arith, lookup-select p j m)

pub select-Distinct : (p : String × Entry → Bool) (m : Bans) → Distinct m → Distinct (select p m)
select-Distinct p [] d = tt
select-Distinct p (e ∷ m) d = elim (Bool-cases (p e)) [
  | inl t ↦ rw t (lookup-select p e.0 m d.0, select-Distinct p m d.1)
  | inr t ↦ rw t (select-Distinct p m d.1)
]

lookup-take :
    {V : Type 0} (n : ℕ) (j : String) (m : Dict String V)
    → lookup j m ≡ none
    → lookup j (take n m) ≡ none
unfolding lookup
lookup-take zero j m h = refl
lookup-take (suc n) j [] h = refl
lookup-take (suc n) j (e ∷ m) h = ground (arith, lookup-take n j m)

pub take-Distinct : {V : Type 0} (n : ℕ) (m : Dict String V) → Distinct m → Distinct (take n m)
take-Distinct zero m d = tt
take-Distinct (suc n) [] d = tt
take-Distinct (suc n) (e ∷ m) d = (lookup-take n e.0 m d.0, take-Distinct n m d.1)

module _ (lt : String × Entry → String × Entry → Bool) where
  lookup-insert_by :
      (j : String) (e : String × Entry) (ys : Bans)
      → (e.0 =? j) ≡ false
      → lookup j ys ≡ none
      → lookup j (insert_by lt e ys) ≡ none
  unfolding lookup insert_by
  lookup-insert_by j e [] n h = ground arith
  lookup-insert_by j e (y ∷ ys) n h = ground (arith, lookup-insert_by j e ys n)

  lookup-sort_by : (j : String) (xs : Bans) → lookup j xs ≡ none → lookup j (sort_by lt xs) ≡ none
  unfolding lookup sort_by
  lookup-sort_by j [] h = refl
  lookup-sort_by j (x ∷ xs) h = elim (Bool-cases (x.0 =? j)) [
    | inl t ↦ cc (rw t at h)
    | inr t ↦ lookup-insert_by j x (sort_by lt xs) t (lookup-sort_by j xs (rw t at h))
  ]

  insert_by-Distinct :
      (e : String × Entry) (ys : Bans)
      → lookup e.0 ys ≡ none
      → Distinct ys
      → Distinct (insert_by lt e ys)
  unfolding lookup insert_by
  insert_by-Distinct e [] h d = (refl, tt)
  insert_by-Distinct e (y ∷ ys) h d = ground (
    arith,
    string_key.beq_iff e.0 y.0,
    string_key.beq_iff y.0 e.0,
    lookup-insert_by y.0 e ys,
    insert_by-Distinct e ys,
  )

  pub sort_by-Distinct : (xs : Bans) → Distinct xs → Distinct (sort_by lt xs)
  unfolding sort_by
  sort_by-Distinct [] d = tt
  sort_by-Distinct (x ∷ xs) d =
      insert_by-Distinct x (sort_by lt xs) (lookup-sort_by x.0 xs d.0) (sort_by-Distinct xs d.1)
