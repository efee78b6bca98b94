-- ===== src/Geoip/Ranges.antt =====
-- internal/geoip/geoip.go: ranges of IPv4 addresses, joined and covered by networks.
use infrafence_agent.Base.{
  ℕ, zero, suc, ◌+◌, ◌-◌, ◌/◌, ◌%◌, ◌^◌, min, max, Bool, Option, none, some, List, [], ◌∷◌, ◌++◌,
  true, false, ltb, leb, ◌==◌, if◌then◌else◌,
}
use infrafence_agent.Base.Sort.{sort_by}

-- Inclusive, of 32-bit addresses.
pub record Range : Type 0 where
  pub first : ℕ
  pub last : ℕ

abbrev pub starts_before : Range → Range → Bool
starts_before a b = ltb a.first b.first

-- The loop of `mergeRanges`; `cur` is the last range of `out`, the only one that can still grow. The
-- end of a range plus one is taken in 64 bits and does not wrap.
unfoldable pub merge_from : Range → List Range → List Range
merge_from cur [] = cur ∷ []
merge_from cur (r ∷ rs) = elim (leb r.first (cur.last + 1)) [
  | true ↦ merge_from (record cur { last = max cur.last r.last }) rs
  | false ↦ cur ∷ merge_from r rs
]

unfoldable pub merge_sorted : List Range → List Range
unfolding merge_from
merge_sorted [] = []
merge_sorted (r ∷ rs) = merge_from r rs

unfoldable pub merge_ranges : List Range → List Range
unfolding merge_sorted
merge_ranges rs = merge_sorted (sort_by starts_before rs)

-- `bits.TrailingZeros64` of a number other than zero, on 64 rounds.
unfoldable pub zeros_on : ℕ → ℕ → ℕ
zeros_on zero n = 0
zeros_on (suc f) n = let more = suc (zeros_on f (n / 2)) in if n % 2 == 0 then more else 0

unfoldable pub trailing_zeros : ℕ → ℕ
unfolding zeros_on
trailing_zeros n = zeros_on 64 n

-- The inner loop: a smaller block while this one ends past the range. One address never does.
unfoldable pub shrink : ℕ → ℕ → ℕ → ℕ
shrink cur end zero = 0
shrink cur end (suc k) =
    let smaller = shrink cur end k in if ltb end (cur + 2 ^ suc k - 1) then smaller else suc k

unfoldable pub block_size : ℕ → ℕ → ℕ
unfolding trailing_zeros shrink
block_size cur end = shrink cur end (if cur == 0 then 32 else min (trailing_zeros cur) 32)

-- A network: its first address and the length of its prefix. The code writes both as text.
pub record Cidr : Type 0 where
  pub base : ℕ
  pub ones : ℕ

-- The room left in `out`, and the networks added to it.
abbrev pub Covering : Type 0
Covering = Option (ℕ × List Cidr)

abbrev pub with_block : Cidr → Covering → Covering
with_block c none = none
with_block c (some (room, cs)) = some (room, c ∷ cs)

-- The middle loop: each round takes one of the `limit` places, so it ends when there is none left.
unfoldable pub cover_from : ℕ → ℕ → ℕ → Covering
unfolding block_size
cover_from zero cur end = if leb cur end then none else some (0, [])
cover_from (suc room) cur end =
    let size = block_size cur end in
    let rest =
      with_block (record { base = cur; ones = 32 - size }) (cover_from room (cur + 2 ^ size) end) in
    if leb cur end then rest else some (suc room, [])

abbrev pub after : List Cidr → Option (List Cidr) → Option (List Cidr)
after cs none = none
after cs (some ds) = some (cs ++ ds)

unfoldable pub cover_all : List Range → ℕ → Option (List Cidr)
unfolding cover_from
cover_all [] room = some []
cover_all (r ∷ rs) room = elim (cover_from room r.first r.last) [
  | none ↦ none
  | some (left, cs) ↦ after cs (cover_all rs left)
]

-- `rangesToCIDRs`: none when it takes more than `limit`.
unfoldable pub ranges_to_cidrs : List Range → ℕ → Option (List Cidr)
unfolding cover_all
ranges_to_cidrs rs limit = cover_all rs limit
