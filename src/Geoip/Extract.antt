-- ===== src/Geoip/Extract.antt =====
-- internal/geoip/geoip.go: `ExtractCIDRs`, the networks of a country. The walk of the database is the
-- list of the ranges that it finds, each with its country, none where the record cannot be decoded.
use infrafence_agent.Base.{
  ℕ, ◌*◌, ◌≤◌, Bool, true, false, Option, none, some, List, [], ◌∷◌, ◌++◌, String, ◌&&◌, ◌||◌, leb,
  any, any-append, All-append, All, length, if◌then◌else◌, ◌≡◌, refl, ◌∙◌, subst, arith, Bool-cases,
  inl, inr,
}
use infrafence_agent.Base.Dict.{Dict, lookup, insert, lookup-insert}
use infrafence_agent.Base.Keys.{string_key, ◌=?◌, =?-cases}
use infrafence_agent.Geoip.Ranges.{Range, Cidr, merge_ranges, ranges_to_cidrs}
use infrafence_agent.Geoip.Merged.{in_range, IsRange, merge_ranges_lem}
use infrafence_agent.Geoip.Cidrs.{in_cidr, IsCidr, CoversAll, ranges_to_cidrs-CoversAll}

abbrev pub max_cidrs : ℕ
max_cidrs = 500000

pub data CidrError : Type 0 where
  not_loaded : CidrError
  no_country : CidrError
  bad_record : CidrError
  many_ranges : CidrError
  many_networks : CidrError

pub data Extracted (A : Type 0) : Type 0 where
  failed : CidrError → Extracted A
  found : A → Extracted A

-- The callback of the walk, with the ranges so far.
unfoldable pub collect : String → List Range → List (Range × Option String) → Extracted (List Range)
collect country ranges [] = found ranges
collect country ranges ((r, none) ∷ rest) = failed bad_record
collect country ranges ((r, some c) ∷ rest) = elim (c =? country) [
  | false ↦ collect country ranges rest
  | true ↦ elim (leb (2 * max_cidrs) (length ranges)) [
    | true ↦ failed many_ranges
    | false ↦ collect country (ranges ++ r ∷ []) rest
  ]
]

unfoldable pub covered : Extracted (List Range) → Extracted (List Cidr)
covered (failed e) = failed e
covered (found ranges) = elim (ranges_to_cidrs (merge_ranges ranges) max_cidrs) [
  | none ↦ failed many_networks
  | some cidrs ↦ found cidrs
]

-- The networks found so far, by country.
abbrev pub Cache : Type 0
Cache = Dict String (List Cidr)

unfoldable pub cached : String → Cache → Extracted (List Cidr) → Cache × Extracted (List Cidr)
cached country cache (failed e) = (cache, failed e)
cached country cache (found cidrs) = (insert country cidrs cache, found cidrs)

unfoldable pub from_cache :
    String
    → List (Range × Option String)
    → Cache
    → Option (List Cidr)
    → Cache × Extracted (List Cidr)
unfolding cached covered collect
from_cache country records cache (some cidrs) = (cache, found cidrs)
from_cache country records cache none = cached country cache (covered (collect country [] records))

unfoldable pub extract_loaded :
    String → List (Range × Option String) → Cache → Cache × Extracted (List Cidr)
unfolding from_cache
extract_loaded country records cache = from_cache country records cache (lookup country cache)

-- `normal` is `strings.ToUpper` after `strings.TrimSpace`; without a database there is no cache.
unfoldable pub extract_cidrs :
    (String → String)
    → String
    → List (Range × Option String)
    → Option Cache
    → Option Cache × Extracted (List Cidr)
unfolding extract_loaded
extract_cidrs normal code records none = (none, failed not_loaded)
extract_cidrs normal code records (some cache) =
    if normal code =? ""
    then (some cache, failed no_country)
    else (let (cache', r) = extract_loaded (normal code) records cache in (some cache', r))

abbrev pub is_of : String → Option String → Bool
is_of country none = false
is_of country (some c) = c =? country

-- An address of the country, by the records of the database.
abbrev pub belongs : String → List (Range × Option String) → ℕ → Bool
belongs country records a = any records (λ (r, c). is_of country c && in_range a r)

abbrev pub IsExact : List (Range × Option String) → String → List Cidr → Type 0
IsExact records country cidrs =
    ((a : ℕ) → any cidrs (in_cidr a) ≡ belongs country records a)
    × All IsCidr cidrs
    × (length cidrs ≤ max_cidrs)

abbrev Collected :
    List (Range × Option String) → String → List Range → Extracted (List Range) → Type 0
Collected records country ranges (failed e) = Unit
Collected records country ranges (found all) =
    ((a : ℕ) → any all (in_range a) ≡ (any ranges (in_range a) || belongs country records a))
    × All IsRange all

Collected-same :
    (country : String) (old new : List (Range × Option String)) (ranges ranges' : List Range)
    (r : Extracted (List Range))
    → ((a : ℕ)
        → (any ranges (in_range a) || belongs country old a)
          ≡ (any ranges' (in_range a) || belongs country new a))
    → Collected old country ranges r
    → Collected new country ranges' r
Collected-same country old new ranges ranges' (failed e) h c = tt
Collected-same country old new ranges ranges' (found all) h (covers, v) = (λ a. covers a ∙ h a, v)

collect-Collected :
    (country : String) (ranges : List Range) (records : List (Range × Option String))
    → All IsRange ranges
    → All (λ (r, c). IsRange r) records
    → Collected records country ranges (collect country ranges records)
unfolding collect
collect-Collected country ranges [] v w = (λ a. ground arith, v)
collect-Collected country ranges ((r, none) ∷ rest) v w = tt
collect-Collected country ranges ((r, some c) ∷ rest) v w = elim (Bool-cases (c =? country)) [
  | inr t ↦
      rw (t, collect)
        (Collected-same country rest ((r, some c) ∷ rest) ranges ranges
          (collect country ranges rest) (λ a. rw t refl)
          (collect-Collected country ranges rest v w.1))
  | inl t ↦ elim (Bool-cases (leb (2 * max_cidrs) (length ranges))) [
    | inl u ↦ rw (t, u, collect) tt
    | inr u ↦
        rw (t, u, collect)
          (Collected-same country rest ((r, some c) ∷ rest) (ranges ++ r ∷ []) ranges
            (collect country (ranges ++ r ∷ []) rest)
            (λ a. rw (t, any-append (in_range a) ranges (r ∷ [])) (ground arith))
            (collect-Collected country (ranges ++ r ∷ []) rest
              (All-append IsRange ranges (r ∷ []) v (w.0, tt)) w.1))
  ]
]

abbrev pub Answers : List (Range × Option String) → String → Extracted (List Cidr) → Type 0
Answers records country (failed e) = Unit
Answers records country (found cidrs) = IsExact records country cidrs

networks-Answers :
    (country : String) (records : List (Range × Option String)) (all : List Range)
    (o : Option (List Cidr))
    → ((a : ℕ) → any all (in_range a) ≡ belongs country records a)
    → All IsRange all
    → CoversAll (merge_ranges all) max_cidrs o
    → Answers records country (elim o [ none ↦ failed many_networks | some cidrs ↦ found cidrs ])
networks-Answers country records all none e v c = tt
networks-Answers country records all (some cidrs) e v (covers, good, few) =
    (λ a. covers a ∙ (merge_ranges_lem a all v).0 ∙ e a, good, few)

covered-Answers :
    (country : String) (records : List (Range × Option String)) (r : Extracted (List Range))
    → Collected records country [] r
    → Answers records country (covered r)
unfolding covered
covered-Answers country records (failed e) c = tt
covered-Answers country records (found all) (covers, v) =
    networks-Answers country records all (ranges_to_cidrs (merge_ranges all) max_cidrs) covers v
      (ranges_to_cidrs-CoversAll (merge_ranges all) max_cidrs)

-- Each country of the cache has its networks.
abbrev pub IsSound : List (Range × Option String) → Cache → Type 0
IsSound records cache =
    (country : String) (cidrs : List Cidr)
    → lookup country cache ≡ some cidrs
    → IsExact records country cidrs

insert-IsSound :
    (country : String) (records : List (Range × Option String)) (cache : Cache) (cidrs : List Cidr)
    → IsSound records cache
    → IsExact records country cidrs
    → IsSound records (insert country cidrs cache)
insert-IsSound country records cache cidrs s a other found_cidrs h = elim (=?-cases country other) [
  | inl (t, e) ↦
      let same : cidrs ≡ found_cidrs = ground (arith, lookup-insert country other cidrs cache) in
      subst (IsExact records other) same (subst (λ c. IsExact records c cidrs) e a)
  | inr (t, e) ↦ s other found_cidrs (ground (arith, lookup-insert country other cidrs cache))
]

cached-IsSound :
    (country : String) (records : List (Range × Option String)) (cache : Cache)
    (r : Extracted (List Cidr))
    → IsSound records cache
    → Answers records country r
    → IsSound records (cached country cache r).0
      × Answers records country (cached country cache r).1
unfolding cached
cached-IsSound country records cache (failed e) s a = (s, tt)
cached-IsSound country records cache (found cidrs) s a =
    (insert-IsSound country records cache cidrs s a, a)

from_cache-IsSound :
    (country : String) (records : List (Range × Option String)) (cache : Cache)
    (o : Option (List Cidr))
    → All (λ (r, c). IsRange r) records
    → IsSound records cache
    → lookup country cache ≡ o
    → IsSound records (from_cache country records cache o).0
      × Answers records country (from_cache country records cache o).1
unfolding from_cache
from_cache-IsSound country records cache none v s e =
    cached-IsSound country records cache (covered (collect country [] records)) s (
      covered-Answers country records (collect country [] records)
        (collect-Collected country [] records tt v))
from_cache-IsSound country records cache (some cidrs) v s e = (s, s country cidrs e)

extract_loaded-IsSound :
    (country : String) (records : List (Range × Option String)) (cache : Cache)
    → All (λ (r, c). IsRange r) records
    → IsSound records cache
    → IsSound records (extract_loaded country records cache).0
      × Answers records country (extract_loaded country records cache).1
unfolding extract_loaded
extract_loaded-IsSound country records cache v s =
    from_cache-IsSound country records cache (lookup country cache) v s refl

-- Whatever was asked before, ExtractCIDRs keeps the cache right, and when it answers, the networks
-- cover exactly the addresses that the database gives to the country; they are aligned, and no more
-- than the limit.
pub extract_cidrs-IsSound :
    (normal : String → String) (code : String) (records : List (Range × Option String))
    (cache : Cache)
    → All (λ (r, c). IsRange r) records
    → IsSound records cache
    → ((cache' : Cache) × ((extract_cidrs normal code records (some cache)).0 ≡ some cache')
        × IsSound records cache')
      × Answers records (normal code) (extract_cidrs normal code records (some cache)).1
unfolding extract_cidrs
extract_cidrs-IsSound normal code records cache v s = elim (Bool-cases (normal code =? "")) [
  | inl t ↦ rw t ((cache, refl, s), tt)
  | inr t ↦
      let (sound, answers) = extract_loaded-IsSound (normal code) records cache v s in
      rw t (((extract_loaded (normal code) records cache).0, refl, sound), answers)
]
