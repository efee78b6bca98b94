-- ===== src/Geoip/Blocks.antt =====
-- internal/geoip/geoip.go: the blocks that `rangesToCIDRs` takes: aligned, within the range, and as
-- large as that allows.
use infrafence_agent.Base.{
  ℕ, zero, suc, ◌+◌, ◌*◌, ◌/◌, ◌%◌, ◌^◌, ◌≤◌, min, Bool, true, false, ◌==◌, if◌then◌else◌, ◌≡◌, ◌≢◌,
  subst, arith, Bool-cases, inl, inr,
}
use native.Mathlib.Nat.{two-pow-succ, one-le-pow, le_trans}
use infrafence_agent.Geoip.Ranges.{zeros_on, trailing_zeros, shrink, block_size}

-- A multiple of the size of a block.
abbrev pub IsAligned : ℕ → ℕ → Type 0
IsAligned n k = (q : ℕ) × (n ≡ q * 2 ^ k)

pub one-le-pow_two : (k : ℕ) → 1 ≤ 2 ^ k
one-le-pow_two k = one-le-pow k 2 (omega arith)

IsAligned-double : (n k : ℕ) → IsAligned n (suc k) → IsAligned n k
IsAligned-double n k (q, e) = (q + q, grind (arith, e, two-pow-succ k))

IsAligned-half : (n k : ℕ) → n % 2 ≡ 0 → IsAligned (n / 2) k → IsAligned n (suc k)
IsAligned-half n k even (q, e) = (q, grind (arith, e, two-pow-succ k))

IsAligned-le : (n k t : ℕ) → k ≤ t → IsAligned n t → IsAligned n k
IsAligned-le n k zero h a = let e : zero ≡ k = omega arith in subst (IsAligned n) e a
IsAligned-le n k (suc t) h a = elim (Bool-cases (k == suc t)) [
  | inl e ↦ let e' : suc t ≡ k = ground arith in subst (IsAligned n) e' a
  | inr e ↦ IsAligned-le n k t (ground arith) (IsAligned-double n t a)
]

zeros_on-IsAligned : (f n : ℕ) → IsAligned n (zeros_on f n)
unfolding zeros_on
zeros_on-IsAligned zero n = (n, omega arith)
zeros_on-IsAligned (suc f) n = elim (Bool-cases (n % 2 == 0)) [
  | inl e ↦
      rw e (IsAligned-half n (zeros_on f (n / 2)) (ground arith) (zeros_on-IsAligned f (n / 2)))
  | inr e ↦ rw e (n, omega arith)
]

shrink-le : (cur end k : ℕ) → shrink cur end k ≤ k
unfolding shrink
shrink-le cur end zero = omega arith
shrink-le cur end (suc k) = ground (arith, shrink-le cur end k)

-- The block ends within the range.
shrink_fits : (cur end k : ℕ) → cur ≤ end → cur + 2 ^ shrink cur end k ≤ end + 1
unfolding shrink
shrink_fits cur end zero h = omega arith
shrink_fits cur end (suc k) h = ground (arith, shrink_fits cur end k, one-le-pow_two (suc k))

block_size-IsAligned : (cur end : ℕ) → IsAligned cur (block_size cur end)
unfolding block_size trailing_zeros
block_size-IsAligned cur end = elim (Bool-cases (cur == 0)) [
  | inl e ↦ rw e (0, ground arith)
  | inr e ↦ rw e (
      IsAligned-le cur (shrink cur end (min (zeros_on 64 cur) 32)) (zeros_on 64 cur)
        (omega (arith, shrink-le cur end (min (zeros_on 64 cur) 32))) (zeros_on-IsAligned 64 cur))
]

start-le : (b : Bool) (t : ℕ) → (if b then 32 else min t 32) ≤ 32
start-le true t = omega arith
start-le false t = omega arith

block_size-le : (cur end : ℕ) → block_size cur end ≤ 32
unfolding block_size
block_size-le cur end = le_trans (shrink-le cur end _) (start-le (cur == 0) (trailing_zeros cur))

pub block_size_fits : (cur end : ℕ) → cur ≤ end → cur + 2 ^ block_size cur end ≤ end + 1
unfolding block_size
block_size_fits cur end h = shrink_fits cur end _ h

IsAligned-even : (n k : ℕ) → IsAligned n (suc k) → (n % 2 ≡ 0) × IsAligned (n / 2) k
IsAligned-even n k (q, e) =
    let twice : n ≡ 2 * (q * 2 ^ k) = grind (arith, e, two-pow-succ k) in
    (omega (arith, twice), (q, omega (arith, twice)))

zeros_on_max : (f n k : ℕ) → n ≢ 0 → k ≤ f → IsAligned n k → k ≤ zeros_on f n
unfolding zeros_on
zeros_on_max f n zero p h a = omega arith
zeros_on_max zero n (suc k) p h a = absurd (omega (arith, h))
zeros_on_max (suc f) n (suc k) p h a =
    let (even, half) = IsAligned-even n k a in
    ground (
      arith,
      even,
      zeros_on_max f (n / 2) k (λ z. p (omega (arith, z, even))) (omega (arith, h)) half,
    )

shrink_max : (cur end k s : ℕ) → k ≤ s → cur + 2 ^ k ≤ end + 1 → k ≤ shrink cur end s
unfolding shrink
shrink_max cur end k zero h f = h
shrink_max cur end k (suc s) h f = elim (Bool-cases (k == suc s)) [
  | inl e ↦
      let e' : k ≡ suc s = ground arith in
      let f' : cur + 2 ^ suc s ≤ end + 1 = subst (λ j. cur + 2 ^ j ≤ end + 1) e' f in
      ground (arith, f', e', one-le-pow_two (suc s))
  | inr e ↦ ground (arith, shrink_max cur end k s)
]

block_size_max :
    (cur end k : ℕ) → k ≤ 32 → IsAligned cur k → cur + 2 ^ k ≤ end + 1 → k ≤ block_size cur end
unfolding block_size trailing_zeros
block_size_max cur end k h a f = elim (Bool-cases (cur == 0)) [
  | inl e ↦ rw e (shrink_max cur end k 32 h f)
  | inr e ↦ rw e (
      shrink_max cur end k (min (zeros_on 64 cur) 32)
        (omega (arith, h, zeros_on_max 64 cur k (ground (arith, e)) (omega (arith, h)) a)) f)
]

-- Every block that `rangesToCIDRs` takes is aligned on its first address and ends within the range,
-- and no larger one would.
pub block_size_lem :
    (cur end : ℕ)
    → cur ≤ end
    → (block_size cur end ≤ 32)
      × IsAligned cur (block_size cur end)
      × (cur + 2 ^ block_size cur end ≤ end + 1)
      × ((k : ℕ) → k ≤ 32 → IsAligned cur k → cur + 2 ^ k ≤ end + 1 → k ≤ block_size cur end)
block_size_lem cur end h = (
  block_size-le cur end,
  block_size-IsAligned cur end,
  block_size_fits cur end h,
  block_size_max cur end,
)
