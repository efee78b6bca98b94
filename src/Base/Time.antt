-- ===== src/Base/Time.antt =====
-- Go's time.Time and time.Duration. A time is its distance in nanoseconds from the zero time, which
-- is 0; a duration that the code names is a number of nanoseconds. A difference of two times may be
-- negative, so a comparison of one with a duration is written as a comparison of sums.
use Prim.Native.Nat.{ℕ, ◌+◌, ◌*◌, ◌≤◌}
use mathlib.Core.List.{List, [], ◌∷◌}
use mathlib.Core.Bool.{Bool}
use infrafence_agent.Base.Int.{ℤ, sub_ℕ}
use infrafence_agent.Base.Tests.{ltb, leb, ◌==◌}

abbrev pub Time : Type 0
Time = ℕ

abbrev pub Duration : Type 0
Duration = ℕ

abbrev pub second : Duration
second = 1_000_000_000

abbrev pub minute : Duration
minute = 60 * second

abbrev pub hour : Duration
hour = 60 * minute

abbrev pub is_zero : Time → Bool
is_zero t = t == 0

-- `a.Before(b)` and `a.After(b)`.
abbrev pub before : Time → Time → Bool
before a b = ltb a b

abbrev pub after : Time → Time → Bool
after a b = ltb b a

-- `a.Sub(b)`.
abbrev pub sub : Time → Time → ℤ
sub a b = sub_ℕ a b

-- `a.Sub(b) > d`, `a.Sub(b) >= d` and `a.Sub(b) < d`.
abbrev pub sub_gt : Time → Time → Duration → Bool
sub_gt a b d = ltb (b + d) a

abbrev pub sub_ge : Time → Time → Duration → Bool
sub_ge a b d = leb (b + d) a

abbrev pub sub_lt : Time → Time → Duration → Bool
sub_lt a b d = ltb a (b + d)

-- Each time lies at least so long after the one before it in time.
abbrev pub Spaced : Duration → List Time → Type 0
Spaced d [] = Unit
Spaced d (t ∷ []) = Unit
Spaced d (t ∷ u ∷ ts) = (u + d ≤ t) × Spaced d (u ∷ ts)
