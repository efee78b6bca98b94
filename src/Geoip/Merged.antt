-- ===== src/Geoip/Merged.antt =====
-- internal/geoip/geoip.go: `mergeRanges` keeps the addresses and leaves the ranges apart.
use infrafence_agent.Base.{
  ℕ, ◌+◌, ◌≤◌, ◌<◌, max, Bool, true, false, ◌&&◌, ◌||◌, List, [], ◌∷◌, leb, leb→le, any, All, ◌≡◌,
  refl, ap, ◌∙◌, arith, Bool-cases, inl, inr,
}
use infrafence_agent.Base.Sort.{
  sort_by, IsSorted, sort_by-IsSorted, All-sort_by, All-map, any-sort_by,
}
use infrafence_agent.Geoip.Ranges.{Range, starts_before, merge_from, merge_sorted, merge_ranges}

abbrev pub in_range : ℕ → Range → Bool
in_range a r = leb r.first a && leb a r.last

-- A range as walkIPv4 gives it holds an address.
abbrev pub IsRange : Range → Type 0
IsRange r = r.first ≤ r.last

-- Each range ends before the next one starts, with an address between them.
abbrev pub Apart : List Range → Type 0
Apart [] = Unit
Apart (r ∷ rs) = All (λ q. r.last + 1 < q.first) rs × Apart rs

abbrev From : Range → List Range → Type 0
From r rs = All (λ y. starts_before y r ≡ false) rs

in_range-join :
    (a : ℕ) (p r : Range)
    → p.first ≤ r.first
    → r.first ≤ p.last + 1
    → IsRange p
    → IsRange r
    → in_range a (record p { last = max p.last r.last }) ≡ (in_range a p || in_range a r)
in_range-join a p r h k v w = ground arith

or_assoc : (a b c : Bool) → ((a || b) || c) ≡ (a || (b || c))
or_assoc a b c = ground arith

merge_from-covers :
    (a : ℕ) (p : Range) (rs : List Range)
    → From p rs
    → IsSorted starts_before rs
    → IsRange p
    → All IsRange rs
    → any (merge_from p rs) (in_range a) ≡ (in_range a p || any rs (in_range a))
unfolding merge_from
merge_from-covers a p [] f s v w = refl
merge_from-covers a p (r ∷ rs) f s v w = elim (Bool-cases (leb r.first (p.last + 1))) [
  | inl t ↦
      rw (t, merge_from)
        (merge_from-covers a (record p { last = max p.last r.last }) rs f.1 s.1 (omega (arith, v))
            w.1
          ∙ ap (λ b. b || any rs (in_range a))
              (in_range-join a p r (ground (arith, f.0)) (leb→le r.first (p.last + 1) t) v w.0)
          ∙ or_assoc (in_range a p) (in_range a r) (any rs (in_range a)))
  | inr t ↦
      rw (t, merge_from) (ap (λ b. in_range a p || b) (merge_from-covers a r rs s.0 s.1 w.0 w.1))
]

merge_from-Apart :
    (p : Range) (rs : List Range)
    → From p rs
    → IsSorted starts_before rs
    → Apart (merge_from p rs) × All (λ q. p.first ≤ q.first) (merge_from p rs)
unfolding merge_from
merge_from-Apart p [] f s = ((tt, tt), (omega arith, tt))
merge_from-Apart p (r ∷ rs) f s = elim (Bool-cases (leb r.first (p.last + 1))) [
  | inl t ↦ rw (t, merge_from) (merge_from-Apart (record p { last = max p.last r.last }) rs f.1 s.1)
  | inr t ↦
      let (apart, above) = merge_from-Apart r rs s.0 s.1 in
      rw (t, merge_from)
        (
          (All-map _ _ (merge_from r rs) (λ q h. ground (arith, h)) above, apart),
          (omega arith, All-map _ _ (merge_from r rs) (λ q h. ground (arith, h, f.0)) above),
        )
]

starts_before_asym : (x y : Range) → starts_before x y ≡ true → starts_before y x ≡ false
starts_before_asym x y h = ground arith

starts_before_ordered :
    (x y z : Range)
    → starts_before y x ≡ false
    → starts_before z y ≡ false
    → starts_before z x ≡ false
starts_before_ordered x y z h k = ground arith

merge_sorted_lem :
    (a : ℕ) (rs : List Range)
    → IsSorted starts_before rs
    → All IsRange rs
    → (any (merge_sorted rs) (in_range a) ≡ any rs (in_range a)) × Apart (merge_sorted rs)
unfolding merge_sorted
merge_sorted_lem a [] s w = (refl, tt)
merge_sorted_lem a (r ∷ rs) s w =
    (merge_from-covers a r rs s.0 s.1 w.0 w.1, (merge_from-Apart r rs s.0 s.1).0)

-- The joined ranges hold exactly the addresses of the given ones, in any order and with any overlaps;
-- they stand in order, and between two of them lies an address that neither holds.
pub merge_ranges_lem :
    (a : ℕ) (rs : List Range)
    → All IsRange rs
    → (any (merge_ranges rs) (in_range a) ≡ any rs (in_range a)) × Apart (merge_ranges rs)
unfolding merge_ranges
merge_ranges_lem a rs w =
    let sorted = sort_by-IsSorted starts_before starts_before_asym starts_before_ordered rs in
    let (covers, apart) =
      merge_sorted_lem a (sort_by starts_before rs) sorted
        (All-sort_by starts_before IsRange rs w) in
    (covers ∙ any-sort_by starts_before (in_range a) rs, apart)
