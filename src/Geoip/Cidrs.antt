-- ===== src/Geoip/Cidrs.antt =====
-- internal/geoip/geoip.go: `rangesToCIDRs` covers exactly the addresses of the ranges.
use infrafence_agent.Base.{
  ℕ, zero, suc, ◌+◌, ◌-◌, ◌^◌, ◌≤◌, ◌<◌, Bool, ◌&&◌, ◌||◌, Option, none, some, List, [], ◌∷◌, ltb,
  leb, any, any-append, All, All-append, length, length-append, ◌≡◌, refl, ◌∙◌, arith, Bool-cases,
  inl, inr,
}
use infrafence_agent.Geoip.Ranges.{
  Range, block_size, Cidr, Covering, with_block, cover_from, after, cover_all, ranges_to_cidrs,
}
use infrafence_agent.Geoip.Merged.{in_range}
use infrafence_agent.Geoip.Blocks.{IsAligned, one-le-pow_two, block_size_lem}

abbrev pub in_cidr : ℕ → Cidr → Bool
in_cidr a c = leb c.base a && ltb a (c.base + 2 ^ (32 - c.ones))

-- A prefix of at most 32 bits, and an address whose other bits are zero.
abbrev pub IsCidr : Cidr → Type 0
IsCidr c = (c.ones ≤ 32) × IsAligned c.base (32 - c.ones)

-- How many addresses ranges hold, those in two of them twice.
abbrev pub size_of : List Range → ℕ
size_of [] = 0
size_of (r ∷ rs) = (r.last + 1 - r.first) + size_of rs

-- What covering the addresses from `cur` to `end` in `room` places gives.
abbrev Covers : ℕ → ℕ → ℕ → Covering → Type 0
Covers cur end room none = room < end + 1 - cur
Covers cur end room (some (left, cs)) =
    ((a : ℕ) → any cs (in_cidr a) ≡ (leb cur a && leb a end))
    × All IsCidr cs
    × (length cs + left ≡ room)
    × (length cs ≤ end + 1 - cur)

block_split :
    (a cur end p : ℕ)
    → cur + p ≤ end + 1
    → ((leb cur a && ltb a (cur + p)) || (leb (cur + p) a && leb a end)) ≡ (leb cur a && leb a end)
block_split a cur end p h = ground arith

back : (k : ℕ) → k ≤ 32 → 32 - (32 - k) ≡ k
back k h = omega arith

with_block-Covers :
    (cur end room k : ℕ) (r : Covering)
    → k ≤ 32
    → IsAligned cur k
    → cur + 2 ^ k ≤ end + 1
    → Covers (cur + 2 ^ k) end room r
    → Covers cur end (suc room) (with_block (record { base = cur; ones = 32 - k }) r)
with_block-Covers cur end room k none le al fits h = omega (arith, one-le-pow_two k, h)
with_block-Covers cur end room k (some (left, cs)) le al fits (covers, cidrs, count, few) = (
  λ a. rw (back k le, covers a) (block_split a cur end (2 ^ k) fits),
  ((omega arith, rw (back k le) al), cidrs),
  omega (arith, count),
  omega (arith, few, one-le-pow_two k, fits),
)

cover_from-Covers : (room cur end : ℕ) → Covers cur end room (cover_from room cur end)
unfolding cover_from
cover_from-Covers zero cur end = elim (Bool-cases (leb cur end)) [
  | inl t ↦ rw t (ground arith)
  | inr t ↦ rw t (λ a. ground arith, tt, refl, omega arith)
]
cover_from-Covers (suc room) cur end = elim (Bool-cases (leb cur end)) [
  | inr t ↦ rw t (λ a. ground arith, tt, omega arith, omega arith)
  | inl t ↦
      let size = block_size cur end in
      let (le, al, fits, most) = block_size_lem cur end (ground (arith, t)) in
      rw t (
        with_block-Covers cur end room size (cover_from room (cur + 2 ^ size) end) le al fits
          (cover_from-Covers room (cur + 2 ^ size) end))
]

abbrev pub CoversAll : List Range → ℕ → Option (List Cidr) → Type 0
CoversAll rs limit none = limit < size_of rs
CoversAll rs limit (some cs) =
    ((a : ℕ) → any cs (in_cidr a) ≡ any rs (in_range a)) × All IsCidr cs × (length cs ≤ limit)

after-CoversAll :
    (r : Range) (rs : List Range) (room left : ℕ) (cs : List Cidr) (rest : Option (List Cidr))
    → Covers r.first r.last room (some (left, cs))
    → CoversAll rs left rest
    → CoversAll (r ∷ rs) room (after cs rest)
after-CoversAll r rs room left cs none (covers, cidrs, count, few) h = omega (arith, count, few, h)
after-CoversAll r rs room left cs (some ds) (covers, cidrs, count, few) (covers', cidrs', few') = (
  λ a. any-append (in_cidr a) cs ds ∙ rw (covers a, covers' a) refl,
  All-append IsCidr cs ds cidrs cidrs',
  omega (arith, count, few', length-append cs ds),
)

cover_one-CoversAll :
    (r : Range) (rs : List Range) (room : ℕ) (c : Covering)
    → Covers r.first r.last room c
    → ((left : ℕ) → CoversAll rs left (cover_all rs left))
    → CoversAll
        (r ∷ rs)
        room
        (elim c [ none ↦ none | some (left, cs) ↦ after cs (cover_all rs left) ])
cover_one-CoversAll r rs room none h k = omega (arith, h)
cover_one-CoversAll r rs room (some (left, cs)) h k =
    after-CoversAll r rs room left cs (cover_all rs left) h (k left)

cover_all-CoversAll : (rs : List Range) (room : ℕ) → CoversAll rs room (cover_all rs room)
unfolding cover_all
cover_all-CoversAll [] room = (λ a. refl, tt, omega arith)
cover_all-CoversAll (r ∷ rs) room =
    cover_one-CoversAll r rs room (cover_from room r.first r.last)
      (cover_from-Covers room r.first r.last) (cover_all-CoversAll rs)

-- The networks cover exactly the addresses of the ranges, each is aligned with a prefix of at most 32
-- bits, and they are no more than the limit; they are refused only where the limit is below the number
-- of addresses.
pub ranges_to_cidrs-CoversAll :
    (rs : List Range) (limit : ℕ) → CoversAll rs limit (ranges_to_cidrs rs limit)
unfolding ranges_to_cidrs
ranges_to_cidrs-CoversAll rs limit = cover_all-CoversAll rs limit
