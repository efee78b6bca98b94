-- ===== src/Backoff/Delay.antt =====
-- internal/backoff/gate.go: the wait after the n-th refusal in a row, `Delay`.
use native.Mathlib.Nat.{mul-le-mul_right, le_of_lt, one-le-pow, pow-le-pow_right}
use infrafence_agent.Base.{
  ℕ, ◌+◌, ◌-◌, ◌*◌, ◌/◌, ◌^◌, ◌≤◌, ◌<◌, min, max, ◌≡◌, refl, ltb, leb, if◌then◌else◌, arith,
}
use infrafence_agent.Base.Time.{Duration, minute, hour}

abbrev pub min_wait : Duration
min_wait = minute

abbrev pub max_wait : Duration
max_wait = 30 * minute

abbrev pub suspended_wait : Duration
suspended_wait = 30 * minute

abbrev pub clock_gap : Duration
clock_gap = hour

-- rand.Float64 returns r / 2^53 for an r below 2^53; `part r d` is that share of `d`.
abbrev pub rand_range : ℕ
rand_range = 2 ^ 53

unfoldable pub part : ℕ → Duration → Duration
part r d = r * d / 2 ^ 53

base_wait : ℕ → Duration
base_wait n = if leb n 6 then min (min_wait * 2 ^ (n - 1)) max_wait else max_wait

cap_wait : ℕ → Duration → Duration
cap_wait r d = if ltb max_wait d then max_wait - part r max_wait / 10 else d

-- The wait from its base: the random part, the cap, and the least wait.
spread : ℕ → Duration → Duration
unfolding cap_wait
spread r base = max (cap_wait r (base + part r base / 5)) min_wait

-- `Delay`.
unfoldable pub delay : ℕ → ℕ → Duration
unfolding base_wait spread
delay n r = spread r (base_wait (if ltb n 1 then 1 else n))

pub part-le : (r d : ℕ) → r < rand_range → part r d ≤ d
unfolding part
part-le r d h = omega (arith, mul-le-mul_right d (le_of_lt h))

-- The wait lies between one and thirty minutes, whatever the count of refusals and the random number.
pub delay_bounds : (n r : ℕ) → r < rand_range → (min_wait ≤ delay n r) × (delay n r ≤ max_wait)
unfolding delay
delay_bounds n r h = ground (arith, part-le r max_wait h)

-- The wait that the comment of `Delay` describes, before the random part: one minute doubled at each
-- refusal, and never above thirty.
abbrev pub doubled : ℕ → Duration
doubled n = min (min_wait * 2 ^ (n - 1)) max_wait

base_wait-doubled : (n : ℕ) → 0 < n → base_wait n ≡ doubled n
unfolding base_wait
base_wait-doubled n h = ground (arith, pow-le-pow_right {n = 2} (omega arith) {i = 5} {j = n - 1})

doubled_bounds : (n : ℕ) → 0 < n → (min_wait ≤ doubled n) × (doubled n ≤ max_wait)
doubled_bounds n h = omega (arith, one-le-pow (n - 1) 2 (omega arith))

spread_near :
    (r b : ℕ)
    → r < rand_range
    → min_wait ≤ b
    → b ≤ max_wait
    → (9 * b ≤ 10 * spread r b) × (5 * spread r b ≤ 6 * b)
unfolding spread
spread_near r b h lo hi = ground (arith, part-le r max_wait h, part-le r b h)

-- The wait after the n-th refusal is that wait, less a tenth or plus a fifth at most.
pub delay_near_doubled :
    (n r : ℕ)
    → 0 < n
    → r < rand_range
    → (9 * doubled n ≤ 10 * delay n r) × (5 * delay n r ≤ 6 * doubled n)
unfolding delay
delay_near_doubled n r p h =
    let one : (if ltb n 1 then 1 else n) ≡ n = ground arith in
    rw (one, base_wait-doubled n p)
      (spread_near r (doubled n) h (doubled_bounds n p).0 (doubled_bounds n p).1)

delay_4 : delay 4 0 ≡ 8 * minute
unfolding delay part
delay_4 = refl
