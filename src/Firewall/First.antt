-- ===== src/Firewall/First.antt =====
-- internal/firewall/chain.go: `ensureFirstJump`, which keeps the jump from Docker's chain first.
use infrafence_agent.Base.{
  ℕ, suc, ◌+◌, Bool, true, false, some, List, [], ◌∷◌, ◌++◌, length, length-append, ◌≡◌, refl,
  arith, Bool-cases, inl, inr, sym, ap, ◌∙◌,
}
use infrafence_agent.Base.Text.{same}
use infrafence_agent.Firewall.Lines.{Line, jump_args, jump_line}
use infrafence_agent.Firewall.Jumps.{
  Iptables, delete_jumps, starts_with, first_inserted, put_first, first_listed, ensure_first_jump,
}
use infrafence_agent.Firewall.Placed.{Obeys, remove_at, others}
use mathlib.Core.List.{append_assoc}

remove_at-length :
    (pre : List Line) (l : Line) (ls : List Line)
    → remove_at (length pre) (pre ++ l ∷ ls) ≡ pre ++ ls
remove_at-length [] l ls = refl
remove_at-length (p ∷ pre) l ls = ap (λ xs. p ∷ xs) (remove_at-length pre l ls)

-- After a call: a repair leaves the jump first; otherwise the chain is as it was, or the command that
-- inserts has failed. The lines that are not the jump are the same, in the same order.
abbrev pub IsFirst : {K : Type 0} → Iptables K → Line → Line → List Line → List Line × K → Type 0
IsFirst ipt chain jump ls ([], k) =
    (now : List Line) × (ipt.rules chain k ≡ some now)
    × (others jump now ≡ others jump ls)
    × (starts_with jump ls ≡ true → now ≡ ls)
IsFirst ipt chain jump ls (_ ∷ _, k) =
    (rest : List Line) × (ipt.rules chain k ≡ some (jump ∷ rest))
    × (others jump rest ≡ others jump ls)

module _ {K : Type 0} (ipt : Iptables K) (obeys : Obeys ipt) (chain : Line) where
  Deleted : Line → List Line → List Line → K → Type 0
  Deleted jump pre ls k =
      (now : List Line) × (ipt.rules chain k ≡ some (pre ++ now))
      × (others jump now ≡ others jump ls)

  delete_one :
      (jump l : Line) (i : ℕ) (pre now ls : List Line) (k : K)
      → i ≡ length pre
      → same l jump ≡ true
      → ipt.rules chain k ≡ some (pre ++ l ∷ now)
      → others jump now ≡ others jump ls
      → Deleted jump pre ls (ipt.delete chain (i + 1) k).1
  unfolding Deleted
  delete_one jump l i pre now ls k e t r q = elim (Bool-cases (ipt.delete chain (i + 1) k).0) [
    | inl ok ↦ (
      now,
      obeys.deleted chain (i + 1) (length pre) (pre ++ l ∷ now) k r (omega (arith, e))
            (omega (arith, length-append pre (l ∷ now))) ok
          ∙ ap some (remove_at-length pre l now),
      q,
    )
    | inr bad ↦ (l ∷ now, obeys.delete_kept chain (i + 1) k bad ∙ r, rw t q)
  ]

  delete_jumps-Deleted :
      (jump : Line) (i : ℕ) (pre ls : List Line) (k : K)
      → i ≡ length pre
      → ipt.rules chain k ≡ some (pre ++ ls)
      → Deleted jump pre ls (delete_jumps ipt chain jump i ls k)
  unfolding delete_jumps Deleted
  delete_jumps-Deleted jump i pre [] k e r = ([], r, refl)
  delete_jumps-Deleted jump i pre (l ∷ ls) k e r =
      let (now, s, q) =
        delete_jumps-Deleted jump (suc i) (pre ++ l ∷ []) ls k
          (omega (arith, e, length-append pre (l ∷ [])))
          (r ∙ ap some (sym (append_assoc pre (l ∷ []) ls))) in
      let s' : ipt.rules chain (delete_jumps ipt chain jump (suc i) ls k) ≡ some (pre ++ l ∷ now) =
        s ∙ ap some (append_assoc pre (l ∷ []) now) in
      elim (Bool-cases (same l jump)) [
        | inl t ↦
            rw (t, delete_jumps)
              (delete_one jump l i pre now ls (delete_jumps ipt chain jump (suc i) ls k) e t s' q)
        | inr t ↦ rw (t, delete_jumps) (l ∷ now, s', rw t (ap (λ xs. l ∷ xs) q))
      ]

  module _ (prefix comment target : Line) where
    first_inserted-IsFirst :
        (ls now : List Line) (r : Bool × K)
        → (r.0 ≡ true → ipt.rules chain r.1 ≡ some (jump_line chain comment target ∷ now))
        → (r.0 ≡ false → ipt.rules chain r.1 ≡ some now)
        → others (jump_line chain comment target) now ≡ others (jump_line chain comment target) ls
        → starts_with (jump_line chain comment target) ls ≡ false
        → IsFirst ipt chain (jump_line chain comment target) ls (first_inserted ipt prefix chain r)
    unfolding first_inserted
    first_inserted-IsFirst ls now (true, k) done kept q n = (now, done refl, q)
    first_inserted-IsFirst ls now (false, k) done kept q n = (now, kept refl, q, λ h. cc)

    put_first-IsFirst :
        (ls : List Line) (k : K)
        → ipt.rules chain k ≡ some ls
        → IsFirst ipt chain
            (jump_line chain comment target)
            ls
            (put_first ipt prefix chain comment target ls k)
    unfolding put_first Deleted
    put_first-IsFirst ls k r =
        let jump = jump_line chain comment target in
        elim (Bool-cases (starts_with jump ls)) [
          | inl t ↦ rw t (ls, r, refl, λ h. refl)
          | inr t ↦
              let (now, s, q) = delete_jumps-Deleted jump 0 [] ls k refl r in
              let k' = delete_jumps ipt chain jump 0 ls k in
              rw t (
                first_inserted-IsFirst ls now (ipt.insert chain 1 (jump_args comment target) k')
                  (obeys.inserted chain comment target 0 now k' s (omega arith))
                  (λ f. obeys.insert_kept chain 1 (jump_args comment target) k' f ∙ s) q t)
        ]

    -- A repair that ensureFirstJump reports leaves the jump first in the chain; a chain that starts
    -- with the jump is left as it is. In each case, failures of commands included, the lines that are
    -- not the jump are the same, in the same order.
    pub ensure_first_jump-IsFirst :
        (ls : List Line) (k : K)
        → ipt.rules chain k ≡ some ls
        → IsFirst ipt chain
            (jump_line chain comment target)
            ls
            (ensure_first_jump ipt prefix chain comment target k)
    unfolding ensure_first_jump first_listed
    ensure_first_jump-IsFirst ls k r = rw r (put_first-IsFirst ls k r)
