-- ===== src/Firewall/Placed.antt =====
-- internal/firewall/chain.go: what the repair of a jump leaves in the kernel, on every outcome.
use infrafence_agent.Base.{
  ℕ, zero, suc, ◌+◌, ◌≤◌, ◌<◌, Bool, true, false, not, Option, none, some, List, [], ◌∷◌, length,
  select, if◌then◌else◌, ◌≡◌, refl, inl, inr, arith, Bool-cases, ltb, is_some, ◌∙◌,
}
use infrafence_agent.Base.Sort.{In}
use infrafence_agent.Base.Text.{same, same_refl}
use infrafence_agent.Firewall.Lines.{
  Line, jump_args, jump_line, may_accept, positions_from, jump_position, is_behind,
}
use infrafence_agent.Firewall.Jumps.{
  Iptables, Ensured, failed, ensured, jump_inserted, jump_moved, jump_removed, place_jump,
  ensure_listed, ensure_jump_ahead_of,
}
use infrafence_agent.Firewall.Ahead.{IsAhead, is_behind-IsAhead}

abbrev pub insert_at : ℕ → Line → List Line → List Line
insert_at zero x ls = x ∷ ls
insert_at (suc n) x [] = x ∷ []
insert_at (suc n) x (l ∷ ls) = l ∷ insert_at n x ls

abbrev pub remove_at : ℕ → List Line → List Line
remove_at n [] = []
remove_at zero (l ∷ ls) = ls
remove_at (suc n) (l ∷ ls) = l ∷ remove_at n ls

-- What iptables documents of these commands, for one chain that nothing else changes meanwhile.
pub record Obeys {K : Type 0} (ipt : Iptables K) : Type 0 where
  pub inserted :
      (chain comment target : Line) (place : ℕ) (ls : List Line) (k : K)
      → ipt.rules chain k ≡ some ls
      → place ≤ length ls
      → (ipt.insert chain (suc place) (jump_args comment target) k).0 ≡ true
      → ipt.rules chain (ipt.insert chain (suc place) (jump_args comment target) k).1
        ≡ some (insert_at place (jump_line chain comment target) ls)
  pub insert_kept :
      (chain : Line) (place : ℕ) (args : List Line) (k : K)
      → (ipt.insert chain place args k).0 ≡ false
      → ipt.rules chain (ipt.insert chain place args k).1 ≡ ipt.rules chain k
  pub deleted :
      (chain : Line) (n place : ℕ) (ls : List Line) (k : K)
      → ipt.rules chain k ≡ some ls
      → n ≡ place + 1
      → place < length ls
      → (ipt.delete chain n k).0 ≡ true
      → ipt.rules chain (ipt.delete chain n k).1 ≡ some (remove_at place ls)
  pub delete_kept :
      (chain : Line) (place : ℕ) (k : K)
      → (ipt.delete chain place k).0 ≡ false
      → ipt.rules chain (ipt.delete chain place k).1 ≡ ipt.rules chain k
  pub checked :
      (chain comment target : Line) (ls : List Line) (k : K)
      → ipt.rules chain k ≡ some ls
      → ipt.check chain (jump_args comment target) k ≡ true
      → In (jump_line chain comment target) ls

-- The lines that are not the jump, in their order.
abbrev pub others : Line → List Line → List Line
others jump ls = select (λ l. not (same l jump)) ls

module _ (jump : Line) where
  ours_kept :
      (i a : ℕ) (first_accept : Option ℕ) (ls : List Line)
      → (positions_from jump i ls (some a) first_accept).0 ≡ some a
  unfolding positions_from
  ours_kept i a fa [] = refl
  ours_kept i a fa (l ∷ ls) = ours_kept (suc i) a _ ls

  -- The index that `jumpPosition` finds is that of a line which is the jump.
  ours_removed :
      (i a : ℕ) (first_accept : Option ℕ) (ls : List Line)
      → (positions_from jump i ls none first_accept).0 ≡ some a
      → (d : ℕ) × (a ≡ i + d) × (d < length ls) × (others jump (remove_at d ls) ≡ others jump ls)
  unfolding positions_from
  ours_removed i a fa [] h = cc
  ours_removed i a fa (l ∷ ls) h = elim (Bool-cases (same l jump)) [
    | inl t ↦ (
      0,
      ground (
        arith,
        ours_kept (suc i) i (if is_some fa then fa else if may_accept l then some i else none) ls,
      ),
      omega arith,
      ground arith,
    )
    | inr t ↦
        let (d, e, lt, q) =
          ours_removed (suc i) a (if is_some fa then fa else if may_accept l then some i else none)
            ls (rw (t, positions_from) at h) in
        (suc d, omega (arith, e), omega (arith, lt), ground (arith, q))
  ]

-- After a call: without an error the jump is ahead; with one, the jump stands in the chain if it stood
-- there before. The other lines are the same, in the same order.
abbrev pub IsPlaced : {K : Type 0} → Iptables K → Line → Line → List Line → Ensured × K → Type 0
IsPlaced ipt chain jump ls (ensured repaired, k) =
    (now : List Line) × (ipt.rules chain k ≡ some now)
    × IsAhead jump now
    × (others jump now ≡ others jump ls)
IsPlaced ipt chain jump ls (failed e repaired, k) =
    (now : List Line) × (ipt.rules chain k ≡ some now)
    × (In jump ls → In jump now)
    × (others jump now ≡ others jump ls)

module _ {K : Type 0} (ipt : Iptables K) (prefix chain comment target : Line) (ls : List Line) where
  abbrev the_jump : Line
  the_jump = jump_line chain comment target

  others-again : others the_jump (the_jump ∷ ls) ≡ others the_jump ls
  others-again = rw (same_refl the_jump) refl

  removed-IsPlaced :
      (i : ℕ) (r : Bool × K)
      → others the_jump (remove_at i ls) ≡ others the_jump ls
      → (r.0 ≡ true → ipt.rules chain r.1 ≡ some (the_jump ∷ remove_at i ls))
      → (r.0 ≡ false → ipt.rules chain r.1 ≡ some (the_jump ∷ ls))
      → IsPlaced ipt chain the_jump ls (jump_removed ipt prefix chain r)
  unfolding jump_removed
  removed-IsPlaced i (true, k) q done kept =
      (the_jump ∷ remove_at i ls, done refl, inl refl, rw (same_refl the_jump) q)
  removed-IsPlaced i (false, k) q done kept =
      (the_jump ∷ ls, kept refl, λ h. inl refl, others-again)

  inserted-IsPlaced :
      (r : Bool × K)
      → (r.0 ≡ true → ipt.rules chain r.1 ≡ some (the_jump ∷ ls))
      → (r.0 ≡ false → ipt.rules chain r.1 ≡ some ls)
      → IsPlaced ipt chain the_jump ls (jump_inserted ipt prefix chain comment target r)
  unfolding jump_inserted
  inserted-IsPlaced (true, k) done kept = (the_jump ∷ ls, done refl, inl refl, others-again)
  inserted-IsPlaced (false, k) done kept = (ls, kept refl, λ h. h, refl)

  module _ (obeys : Obeys ipt) where
    moved-IsPlaced :
        (i : ℕ) (r : Bool × K)
        → i < length ls
        → others the_jump (remove_at i ls) ≡ others the_jump ls
        → (r.0 ≡ true → ipt.rules chain r.1 ≡ some (the_jump ∷ ls))
        → (r.0 ≡ false → ipt.rules chain r.1 ≡ some ls)
        → IsPlaced ipt chain the_jump ls (jump_moved ipt prefix chain i r)
    unfolding jump_moved
    moved-IsPlaced i (true, k) lt q done kept =
        removed-IsPlaced i (ipt.delete chain (i + 2) k) q
          (obeys.deleted chain (i + 2) (suc i) (the_jump ∷ ls) k (done refl) (omega arith)
            (omega (arith, lt)))
          (λ f. obeys.delete_kept chain (i + 2) k f ∙ done refl)
    moved-IsPlaced i (false, k) lt q done kept = (ls, kept refl, λ h. h, refl)

    IsPlaced-at :
        (p : Option ℕ × Option ℕ) (k : K)
        → ipt.rules chain k ≡ some ls
        → (is_behind p.0 p.1 ≡ false → IsAhead the_jump ls)
        → ((a : ℕ)
            → p.0 ≡ some a
            → (a < length ls) × (others the_jump (remove_at a ls) ≡ others the_jump ls))
        → IsPlaced ipt chain the_jump ls (place_jump ipt prefix chain comment target p k)
    unfolding place_jump is_behind
    IsPlaced-at (none, fa) k r ahead at =
        inserted-IsPlaced (ipt.insert chain 1 (jump_args comment target) k)
          (obeys.inserted chain comment target 0 ls k r (omega arith))
          (λ f. obeys.insert_kept chain 1 (jump_args comment target) k f ∙ r)
    IsPlaced-at (some i, none) k r ahead at = (ls, r, ahead refl, refl)
    IsPlaced-at (some i, some j) k r ahead at = elim (Bool-cases (ltb j i)) [
      | inl t ↦ rw t (
          moved-IsPlaced i (ipt.insert chain 1 (jump_args comment target) k) (at i refl).0
            (at i refl).1 (obeys.inserted chain comment target 0 ls k r (omega arith))
            (λ f. obeys.insert_kept chain 1 (jump_args comment target) k f ∙ r))
      | inr t ↦ rw t (ls, r, ahead t, refl)
    ]

    found_at :
        (a : ℕ)
        → (jump_position ls the_jump).0 ≡ some a
        → (a < length ls) × (others the_jump (remove_at a ls) ≡ others the_jump ls)
    unfolding jump_position
    found_at a h =
        let (d, e, lt, q) = ours_removed the_jump 0 a none ls h in
        let same_index : a ≡ d = omega (arith, e) in rw same_index (lt, q)

    place_jump-IsPlaced :
        (k : K)
        → ipt.rules chain k ≡ some ls
        → IsPlaced ipt chain the_jump ls
            (place_jump ipt prefix chain comment target (jump_position ls the_jump) k)
    place_jump-IsPlaced k r =
        IsPlaced-at (jump_position ls the_jump) k r (is_behind-IsAhead the_jump ls).0 found_at

    -- Once the chain can be listed, a call of ensureJumpAheadOf leaves the jump in place: without an
    -- error no line above it can accept, and with one it is still there if it was.
    pub ensure_jump_ahead_of-IsPlaced :
        (k : K)
        → ipt.rules chain k ≡ some ls
        → IsPlaced ipt chain the_jump ls (ensure_jump_ahead_of ipt prefix chain comment target k)
    unfolding ensure_jump_ahead_of ensure_listed
    ensure_jump_ahead_of-IsPlaced k r = rw r (place_jump-IsPlaced k r)
