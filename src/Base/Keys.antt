-- ===== src/Base/Keys.antt =====
-- Keys of maps: a type with a decided equality, as an instance.
use Prim.Native.Nat.{ℕ}
use Prim.Native.String.{String}
use mathlib.Core.Path.{◌≡◌, refl}
use mathlib.Core.Logic.{◌↔◌, ◌⊎◌, inl, inr, ◌≢◌}
use mathlib.Core.Bool.{Bool, true, false}
use text.Mathlib.Text.{◌==◌ as text_eq}
use text.Mathlib.TextEquality.{eq_iff}
use infrafence_agent.Base.Tests.{◌==◌, ==_iff, Bool-cases}

pub record Key {ℓ} (K : Type ℓ) : Type ℓ where
  pub beq : K → K → Bool
  pub beq_iff : (a b : K) → (beq a b ≡ true) ↔ (a ≡ b)

instance abbrev pub nat_key : Key ℕ
nat_key = record { beq = ◌==◌; beq_iff = ==_iff }

instance abbrev pub string_key : Key String
string_key = record { beq = text_eq; beq_iff = eq_iff }

module _ {ℓ} {K : Type ℓ} ⦃e : Key K⦄ where
  infix 50 ◌=?◌
  abbrev pub ◌=?◌ : K → K → Bool
  a =? b = e.beq a b

  pub =?-refl : (a : K) → (a =? a) ≡ true
  =?-refl a = (e.beq_iff a a).1 refl

  pub =?-cases : (a b : K) → (((a =? b) ≡ true) × (a ≡ b)) ⊎ (((a =? b) ≡ false) × (a ≢ b))
  =?-cases a b = elim (Bool-cases (a =? b)) [
    | inl h ↦ inl (h, (e.beq_iff a b).0 h)
    | inr h ↦ inr (h, λ q. cc ((e.beq_iff a b).1 q))
  ]
