-- ===== src/Base/Run.antt =====
-- What a run of the code ends in. A read outside a slice would panic: `panicked` is that, and
-- `exhausted` is a loop of the model that has used up its fuel.
use Prim.Native.Nat.{ℕ, zero, suc, ◌+◌, ◌≤◌, ◌<◌}
use infrafence_agent.Base.Tests.{if◌then◌else◌, leb}
use mathlib.Core.Path.{◌≡◌, refl}
use native.Mathlib.Omega.{arith}
use mathlib.Core.Option.{none, some}
use mathlib.Core.List.{List, [], ◌∷◌}
use infrafence_agent.Base.Lists.{get_elem?, length, take, drop, length-take, length-drop}

abbrev pub Bytes : Type 0
Bytes = List ℕ

pub data Run {ℓ} (A : Type ℓ) : Type ℓ where
  panicked exhausted : Run A
  done : A → Run A

infixl 5 ◌>>=◌
abbrev pub ◌>>=◌ {ℓ κ} : {A : Type ℓ} {B : Type κ} → Run A → (A → Run B) → Run B
panicked >>= f = panicked
exhausted >>= f = exhausted
done a >>= f = f a

-- `b[i]`.
unfoldable pub byte : Bytes → ℕ → Run ℕ
byte b i = elim (get_elem? b i) [ none ↦ panicked | some c ↦ done c ]

-- `b[i:i+n]`.
unfoldable pub slice : Bytes → ℕ → ℕ → Run Bytes
slice b i n = if leb (i + n) (length b) then done (take n (drop i b)) else panicked

-- The run ends with a value that satisfies a predicate: it neither panics nor runs out of fuel.
abbrev pub Returns {ℓ} : {A : Type ℓ} → (A → Type 0) → Run A → Type 0
Returns P panicked = ⊥
Returns P exhausted = ⊥
Returns P (done a) = P a

pub Returns-bind :
    {A B : Type 0} (P : A → Type 0) (Q : B → Type 0) (r : Run A) (f : A → Run B)
    → Returns P r
    → ((a : A) → P a → Returns Q (f a))
    → Returns Q (r >>= f)
Returns-bind P Q panicked f p g = p
Returns-bind P Q exhausted f p g = p
Returns-bind P Q (done a) f p g = g a p

pub byte_Returns : (b : Bytes) (i : ℕ) → i < length b → (c : ℕ) × (byte b i ≡ done c)
unfolding byte
byte_Returns [] i p = elim p [ ]
byte_Returns (c ∷ b) zero p = (c, refl)
byte_Returns (c ∷ b) (suc i) p = byte_Returns b i (omega arith)

pub slice_lem :
    (b : Bytes) (i n : ℕ) → i + n ≤ length b → (s : Bytes) × (slice b i n ≡ done s) × (length s ≡ n)
unfolding slice
slice_lem b i n p =
    (take n (drop i b), ground arith, omega (arith, length-take n (drop i b), length-drop i b))

pub Returns-weaken :
    {A : Type 0} (P Q : A → Type 0) (r : Run A) → ((a : A) → P a → Q a) → Returns P r → Returns Q r
Returns-weaken P Q panicked w p = p
Returns-weaken P Q exhausted w p = p
Returns-weaken P Q (done a) w p = w a p
