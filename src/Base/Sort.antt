-- ===== src/Base/Sort.antt =====
-- Go's sort.Slice by a strict order, as insertion sort: with a total order the result is the only one.
use infrafence_agent.Base.Tests.{if◌then◌else◌, Bool-cases}
use infrafence_agent.Base.Lists.{length, take, drop, All, any}
use Prim.Native.Nat.{ℕ, zero, suc}
use mathlib.Core.Path.{◌≡◌, refl}
use mathlib.Core.Logic.{◌⊎◌, inl, inr}
use mathlib.Core.Bool.{Bool, true, false, ◌||◌}
use mathlib.Core.List.{List, [], ◌∷◌}
use native.Mathlib.Omega.{arith}

module _ {A : Type 0} where
  unfoldable pub insert_by : (A → A → Bool) → A → List A → List A
  insert_by lt x [] = x ∷ []
  insert_by lt x (y ∷ ys) = if lt y x then y ∷ insert_by lt x ys else x ∷ y ∷ ys

  unfoldable pub sort_by : (A → A → Bool) → List A → List A
  sort_by lt [] = []
  sort_by lt (x ∷ xs) = insert_by lt x (sort_by lt xs)

  abbrev pub In : A → List A → Type 0
  In x [] = ⊥
  In x (y ∷ ys) = (x ≡ y) ⊎ In x ys

  -- No element comes before one that stands ahead of it.
  abbrev pub IsSorted : (A → A → Bool) → List A → Type 0
  IsSorted lt [] = Unit
  IsSorted lt (x ∷ xs) = All (λ y. lt y x ≡ false) xs × IsSorted lt xs

  pub In-All : (P : A → Type 0) (x : A) (xs : List A) → All P xs → In x xs → P x
  In-All P x [] a h = absurd h
  In-All P x (y ∷ ys) a (inl e) = rw e a.0
  In-All P x (y ∷ ys) a (inr h) = In-All P x ys a.1 h

  pub All-map : (P Q : A → Type 0) (xs : List A) → ((x : A) → P x → Q x) → All P xs → All Q xs
  All-map P Q [] f a = tt
  All-map P Q (x ∷ xs) f a = (f x a.0, All-map P Q xs f a.1)

  pub In-take-drop : (n : ℕ) (x : A) (xs : List A) → In x xs → In x (take n xs) ⊎ In x (drop n xs)
  In-take-drop zero x xs h = inr h
  In-take-drop (suc n) x (y ∷ ys) (inl e) = inl (inl e)
  In-take-drop (suc n) x (y ∷ ys) (inr h) = elim (In-take-drop n x ys h) [
    | inl k ↦ inl (inr k)
    | inr k ↦ inr k
  ]
  In-take-drop (suc n) x [] h = absurd h

  pub All-take : (P : A → Type 0) (n : ℕ) (xs : List A) → All P xs → All P (take n xs)
  All-take P zero xs a = tt
  All-take P (suc n) [] a = tt
  All-take P (suc n) (x ∷ xs) a = (a.0, All-take P n xs a.1)

  pub All-drop : (P : A → Type 0) (n : ℕ) (xs : List A) → All P xs → All P (drop n xs)
  All-drop P zero xs a = a
  All-drop P (suc n) [] a = tt
  All-drop P (suc n) (x ∷ xs) a = All-drop P n xs a.1

  module _ (lt : A → A → Bool) where
    All-insert_by :
        (P : A → Type 0) (x : A) (ys : List A) → P x → All P ys → All P (insert_by lt x ys)
    unfolding insert_by
    All-insert_by P x [] p a = (p, tt)
    All-insert_by P x (y ∷ ys) p a = elim (Bool-cases (lt y x)) [
      | inl t ↦ rw t (a.0, All-insert_by P x ys p a.1)
      | inr t ↦ rw t (p, a)
    ]

    pub All-sort_by : (P : A → Type 0) (xs : List A) → All P xs → All P (sort_by lt xs)
    unfolding sort_by
    All-sort_by P [] a = tt
    All-sort_by P (x ∷ xs) a = All-insert_by P x (sort_by lt xs) a.0 (All-sort_by P xs a.1)

    In-insert_by : (x z : A) (ys : List A) → (z ≡ x) ⊎ In z ys → In z (insert_by lt x ys)
    unfolding insert_by
    In-insert_by x z [] h = h
    In-insert_by x z (y ∷ ys) h = elim (Bool-cases (lt y x)) [
      | inr t ↦ rw t h
      | inl t ↦ rw t (elim h [
        | inl e ↦ inr (In-insert_by x z ys (inl e))
        | inr (inl e) ↦ inl e
        | inr (inr k) ↦ inr (In-insert_by x z ys (inr k))
      ])
    ]

    pub In-sort_by : (z : A) (xs : List A) → In z xs → In z (sort_by lt xs)
    unfolding sort_by
    In-sort_by z [] h = h
    In-sort_by z (x ∷ xs) (inl e) = In-insert_by x z (sort_by lt xs) (inl e)
    In-sort_by z (x ∷ xs) (inr h) = In-insert_by x z (sort_by lt xs) (inr (In-sort_by z xs h))

    length-insert_by : (x : A) (ys : List A) → length (insert_by lt x ys) ≡ suc (length ys)
    unfolding insert_by
    length-insert_by x [] = refl
    length-insert_by x (y ∷ ys) = ground (arith, length-insert_by x ys)

    pub length-sort_by : (xs : List A) → length (sort_by lt xs) ≡ length xs
    unfolding sort_by
    length-sort_by [] = refl
    length-sort_by (x ∷ xs) = omega (arith, length-insert_by x (sort_by lt xs), length-sort_by xs)

    module _ (asym : (x y : A) → lt x y ≡ true → lt y x ≡ false)
        (ordered : (x y z : A) → lt y x ≡ false → lt z y ≡ false → lt z x ≡ false) where
      insert_by-IsSorted : (x : A) (ys : List A) → IsSorted lt ys → IsSorted lt (insert_by lt x ys)
      unfolding insert_by
      insert_by-IsSorted x [] s = (tt, tt)
      insert_by-IsSorted x (y ∷ ys) s = elim (Bool-cases (lt y x)) [
        | inl t ↦
            rw t (
              All-insert_by (λ z. lt z y ≡ false) x ys (asym y x t) s.0,
              insert_by-IsSorted x ys s.1,
            )
        | inr t ↦ rw t ((t, All-map _ (λ z. lt z x ≡ false) ys (λ z k. ordered x y z t k) s.0), s)
      ]

      pub sort_by-IsSorted : (xs : List A) → IsSorted lt (sort_by lt xs)
      unfolding sort_by
      sort_by-IsSorted [] = tt
      sort_by-IsSorted (x ∷ xs) = insert_by-IsSorted x (sort_by lt xs) (sort_by-IsSorted xs)

  -- In a sorted list nothing behind the first n comes before one of them.
  pub IsSorted-split :
      (lt : A → A → Bool) (n : ℕ) (xs : List A)
      → IsSorted lt xs
      → All (λ x. All (λ y. lt y x ≡ false) (drop n xs)) (take n xs)
  IsSorted-split lt zero xs s = tt
  IsSorted-split lt (suc n) [] s = tt
  IsSorted-split lt (suc n) (x ∷ xs) s = (All-drop _ n xs s.0, IsSorted-split lt n xs s.1)

any-insert_by :
    {A : Type 0} (lt : A → A → Bool) (p : A → Bool) (x : A) (ys : List A)
    → any (insert_by lt x ys) p ≡ (p x || any ys p)
unfolding insert_by
any-insert_by lt p x [] = refl
any-insert_by lt p x (y ∷ ys) = ground (arith, any-insert_by lt p x ys)

pub any-sort_by :
    {A : Type 0} (lt : A → A → Bool) (p : A → Bool) (xs : List A) → any (sort_by lt xs) p ≡ any xs p
unfolding sort_by
any-sort_by lt p [] = refl
any-sort_by lt p (x ∷ xs) =
    ground (arith, any-insert_by lt p x (sort_by lt xs), any-sort_by lt p xs)
