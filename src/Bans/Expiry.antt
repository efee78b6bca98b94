-- ===== src/Bans/Expiry.antt =====
-- internal/firewall/bans.go: which bans are over, and when the next one is.
use infrafence_agent.Base.{
  ◌≤◌, ◌<◌, Bool, false, not, ◌&&◌, ◌||◌, Option, none, some, List, [], ◌∷◌, String, if◌then◌else◌,
  All, ◌≡◌, ◌∙◌, ap, sym, refl, arith, Bool-cases, ◌⊎◌, inl, inr, select,
}
use infrafence_agent.Base.Dict.{lookup, retain, Distinct, lookup-retain}
use infrafence_agent.Base.Keys.{string_key, ◌=?◌, =?-cases}
use infrafence_agent.Base.Sort.{sort_by, insert_by, In}
use infrafence_agent.Base.Time.{Time, is_zero, before}
use infrafence_agent.Bans.Registry.{
  Entry, Bans, addresses, member, expire_bans, is_over, next_expiry,
}

module _ (lt : String → String → Bool) where
  member-insert_by :
      (k x : String) (ys : List String) → member k (insert_by lt x ys) ≡ ((x =? k) || member k ys)
  unfolding insert_by
  member-insert_by k x [] = refl
  member-insert_by k x (y ∷ ys) = ground (arith, member-insert_by k x ys)

  member-sort_by : (k : String) (xs : List String) → member k (sort_by lt xs) ≡ member k xs
  unfolding sort_by
  member-sort_by k [] = refl
  member-sort_by k (x ∷ xs) =
      ground (arith, member-insert_by k x (sort_by lt xs), member-sort_by k xs)

-- Whether the ban of an address is over.
abbrev pub over_at : Time → Option Entry → Bool
over_at now none = false
over_at now (some b) = is_over now b

not_over :
    (now : Time) (k : String) (m : Bans)
    → lookup k m ≡ none
    → member k (addresses (select (λ e. is_over now e.1) m)) ≡ false
unfolding lookup
not_over now k [] n = refl
not_over now k ((i, b) ∷ m) n = ground (arith, not_over now k m)

member_over :
    (now : Time) (k : String) (m : Bans)
    → Distinct m
    → member k (addresses (select (λ e. is_over now e.1) m)) ≡ over_at now (lookup k m)
unfolding lookup
member_over now k [] d = refl
member_over now k ((i, b) ∷ m) d = elim (=?-cases i k) [
  | inl (t, q) ↦ ground (arith, t, not_over now i m d.0)
  | inr (t, q) ↦ ground (arith, t, member_over now k m d.1)
]

-- The expired addresses are those whose ban is over, an expiry at `now` itself included and a permanent
-- ban never, and the registry keeps every other ban as it is.
pub expire_bans_lem :
    (m : Bans) (now : Time) (ip : String)
    → Distinct m
    → (member ip (expire_bans m now).1 ≡ over_at now (lookup ip m))
      × (lookup ip (expire_bans m now).0
          ≡ (if over_at now (lookup ip m) then none else lookup ip m))
unfolding expire_bans
expire_bans_lem m now ip d = (
  member-sort_by _ ip (addresses (select (λ e. is_over now e.1) m)) ∙ member_over now ip m d,
  ground (arith, lookup-retain (λ j b. not (is_over now b)) ip m d),
)

-- What is found is not after what was found earlier.
next_expiry_le :
    (m : Bans) (next : Time) → 0 < next → (0 < next_expiry m next) × (next_expiry m next ≤ next)
unfolding next_expiry
next_expiry_le [] next p = (p, omega arith)
next_expiry_le ((ip, b) ∷ m) next p =
    ground (arith, next_expiry_le m next, next_expiry_le m b.expires)

next_expiry_first :
    (m : Bans) (next : Time)
    → All (λ e. 0 < e.1.expires → (0 < next_expiry m next) × (next_expiry m next ≤ e.1.expires)) m
unfolding next_expiry
next_expiry_first [] next = tt
next_expiry_first ((ip, b) ∷ m) next =
    (λ p. ground (arith, next_expiry_le m next, next_expiry_le m b.expires), next_expiry_first m _)

next_expiry_found :
    (m : Bans) (next : Time)
    → (next_expiry m next ≡ next)
      ⊎ ((e : String × Entry) × In e m × (e.1.expires ≡ next_expiry m next))
unfolding next_expiry
next_expiry_found [] next = inl refl
next_expiry_found ((ip, b) ∷ m) next =
    elim (Bool-cases (not (is_zero b.expires) && (is_zero next || before b.expires next))) [
      | inl t ↦ rw t (elim (next_expiry_found m b.expires) [
        | inl q ↦ inr ((ip, b), inl refl, sym q)
        | inr (e, i, q) ↦ inr (e, inr i, q)
      ])
      | inr t ↦
          rw t
            (elim (next_expiry_found m next) [ inl q ↦ inl q | inr (e, i, q) ↦ inr (e, inr i, q) ])
    ]

none_over :
    (m : Bans) (now n : Time)
    → (n ≡ 0) ⊎ (now < n)
    → All (λ e. 0 < e.1.expires → (0 < n) × (n ≤ e.1.expires)) m
    → All (λ e. is_over now e.1 ≡ false) m
none_over [] now n early a = tt
none_over ((ip, b) ∷ m) now n early a = (ground (arith, early, a.0), none_over m now n early a.1)

nothing_over :
    (m : Bans) (now : Time)
    → All (λ e. is_over now e.1 ≡ false) m
    → (retain (λ ip b. not (is_over now b)) m ≡ m) × (select (λ e. is_over now e.1) m ≡ [])
unfolding retain
nothing_over [] now a = (refl, refl)
nothing_over ((ip, b) ∷ m) now a =
    rw a.0 (ap (λ l. (ip, b) ∷ l) (nothing_over m now a.1).0, (nothing_over m now a.1).1)

-- Until the next expiry, or for ever if there is none, no ban expires and the registry stays as it is;
-- and the next expiry, if there is one, is that of a ban.
pub expire_bans-next_expiry :
    (m : Bans) (now : Time)
    → ((next_expiry m 0 ≡ 0) ⊎ (now < next_expiry m 0) → expire_bans m now ≡ (m, []))
      × ((next_expiry m 0 ≡ 0) ⊎ ((e : String × Entry) × In e m × (e.1.expires ≡ next_expiry m 0)))
unfolding expire_bans sort_by
expire_bans-next_expiry m now = (
  λ early.
      let q =
        nothing_over m now (none_over m now (next_expiry m 0) early (next_expiry_first m 0)) in
      rw (q.0, q.1) refl,
  next_expiry_found m 0,
)
