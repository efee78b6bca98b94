-- ===== src/Firewall/Ahead.antt =====
-- internal/firewall/chain.go: what it means for the jump to be ahead, and that the test and the
-- repair of the agent agree with it.
use infrafence_agent.Base.{
  ℕ, suc, ◌≤◌, ◌<◌, Bool, true, false, Option, none, some, List, [], ◌∷◌, ◌≡◌, refl, ◌⊎◌, inl, inr,
  ◌↔◌, arith, Bool-cases,
}
use infrafence_agent.Base.Text.{same, same_refl, same-eq}
use infrafence_agent.Firewall.Lines.{Line, may_accept, positions_from, jump_position, is_behind}

-- The jump stands in the list, and no line above it can accept.
abbrev pub IsAhead : Line → List Line → Type 0
IsAhead jump [] = ⊥
IsAhead jump (l ∷ ls) = (l ≡ jump) ⊎ ((may_accept l ≡ false) × IsAhead jump ls)

abbrev behind : Option ℕ × Option ℕ → Bool
behind p = is_behind p.0 p.1

module _ (jump : Line) where
  positions-both :
      (i a b : ℕ) (ls : List Line) → positions_from jump i ls (some a) (some b) ≡ (some a, some b)
  unfolding positions_from
  positions-both i a b [] = refl
  positions-both i a b (l ∷ ls) = positions-both (suc i) a b ls

  positions-ours :
      (i a : ℕ) (ls : List Line) → a ≤ i → behind (positions_from jump i ls (some a) none) ≡ false
  unfolding positions_from is_behind
  positions-ours i a [] h = refl
  positions-ours i a (l ∷ ls) h = elim (Bool-cases (may_accept l)) [
    | inl t ↦ rw (t, positions_from, positions-both (suc i) a i ls) (ground arith)
    | inr t ↦ rw (t, positions_from) (positions-ours (suc i) a ls (omega arith))
  ]

  positions-accept :
      (i b : ℕ) (ls : List Line) → b < i → behind (positions_from jump i ls none (some b)) ≡ true
  unfolding positions_from is_behind
  positions-accept i b [] h = refl
  positions-accept i b (l ∷ ls) h = elim (Bool-cases (same l jump)) [
    | inl t ↦ rw (t, positions_from, positions-both (suc i) i b ls) (ground arith)
    | inr t ↦ rw (t, positions_from) (positions-accept (suc i) b ls (omega arith))
  ]

  positions-IsAhead :
      (i : ℕ) (ls : List Line)
      → (behind (positions_from jump i ls none none) ≡ false) ↔ IsAhead jump ls
  unfolding positions_from is_behind
  positions-IsAhead i [] = (λ h. cc, λ h. absurd h)
  positions-IsAhead i (l ∷ ls) = elim (Bool-cases (same l jump)) [
    | inl t ↦
        ground (arith, same-eq l jump, positions-ours (suc i) i ls, positions-both (suc i) i i ls)
    | inr t ↦
        ground (arith, same_refl jump, positions-accept (suc i) i ls, positions-IsAhead (suc i) ls)
  ]

  -- The test that the guard makes every few seconds and that the repair makes is false exactly when
  -- the jump is there and no line above it can accept.
  pub is_behind-IsAhead :
      (ls : List Line)
      → (let (ours, first_accept) = jump_position ls jump in is_behind ours first_accept ≡ false)
        ↔ IsAhead jump ls
  unfolding jump_position
  is_behind-IsAhead ls = positions-IsAhead 0 ls
