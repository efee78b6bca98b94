-- ===== src/Geoip/Countries.antt =====
-- internal/geoip/geoip.go: the networks of countries on small inputs.
use infrafence_agent.Base.{
  ℕ, ◌+◌, Option, none, some, List, [], ◌∷◌, String, any, ◌≡◌, refl, arith, ◌≤◌, ◌^◌,
}
use infrafence_agent.Base.Dict.{lookup}
use infrafence_agent.Base.Keys.{string_key}
use infrafence_agent.Base.Sort.{sort_by, insert_by}
use infrafence_agent.Geoip.Ranges.{Range, Cidr, merge_ranges, block_size, ranges_to_cidrs}
use infrafence_agent.Geoip.Merged.{in_range, Apart, merge_ranges_lem}
use infrafence_agent.Geoip.Blocks.{IsAligned, block_size_lem}
use infrafence_agent.Geoip.Cidrs.{CoversAll, ranges_to_cidrs-CoversAll}
use infrafence_agent.Geoip.Extract.{Cache, extract_cidrs, IsSound, Answers, extract_cidrs-IsSound}

abbrev range : ℕ → ℕ → Range
range a b = record { first = a; last = b }

abbrev cidr : ℕ → ℕ → Cidr
cidr a n = record { base = a; ones = n }

abbrev pieces : List Range
pieces = range 20 25 ∷ range 8 12 ∷ range 10 19 ∷ range 40 40 ∷ []

merge_test : merge_ranges pieces ≡ range 8 25 ∷ range 40 40 ∷ []
unfolding merge_ranges sort_by insert_by
merge_test = refl

cidrs_test :
    ranges_to_cidrs (range 8 25 ∷ range 40 40 ∷ []) 4
    ≡ some (cidr 8 29 ∷ cidr 16 29 ∷ cidr 24 31 ∷ cidr 40 32 ∷ [])
unfolding ranges_to_cidrs
cidrs_test = refl

limit_test : ranges_to_cidrs (range 8 25 ∷ range 40 40 ∷ []) 3 ≡ none
unfolding ranges_to_cidrs
limit_test = refl

whole_test : ranges_to_cidrs (range 0 4294967295 ∷ []) 9 ≡ some (cidr 0 0 ∷ [])
unfolding ranges_to_cidrs
whole_test = refl

merge_ranges_lem_example :
    (any (merge_ranges pieces) (in_range 9) ≡ any pieces (in_range 9)) × Apart (merge_ranges pieces)
merge_ranges_lem_example = merge_ranges_lem 9 pieces (omega arith)

block_size_lem_example :
    (block_size 8 25 ≤ 32)
    × IsAligned 8 (block_size 8 25)
    × (8 + 2 ^ block_size 8 25 ≤ 25 + 1)
    × ((k : ℕ) → k ≤ 32 → IsAligned 8 k → 8 + 2 ^ k ≤ 25 + 1 → k ≤ block_size 8 25)
block_size_lem_example = block_size_lem 8 25 (omega arith)

ranges_to_cidrs-CoversAll_example :
    CoversAll (range 8 25 ∷ []) 4 (ranges_to_cidrs (range 8 25 ∷ []) 4)
ranges_to_cidrs-CoversAll_example = ranges_to_cidrs-CoversAll (range 8 25 ∷ []) 4

abbrev records : List (Range × Option String)
records = (range 8 12, some "FR") ∷ (range 13 19, some "DE") ∷ (range 20 25, some "FR") ∷ []

records-IsSound : IsSound records []
unfolding lookup
records-IsSound country cidrs h = absurd (cc)

extract_cidrs-IsSound_example :
    ((cache : Cache) × ((extract_cidrs (λ c. c) "FR" records (some [])).0 ≡ some cache)
      × IsSound records cache)
    × Answers records "FR" (extract_cidrs (λ c. c) "FR" records (some [])).1
extract_cidrs-IsSound_example =
    extract_cidrs-IsSound (λ c. c) "FR" records [] (omega arith) records-IsSound
