-- ===== src/Firewall/Input.antt =====
-- internal/firewall/chain.go: `ensureInputJumps` and `NeedsRepair` together, and what their agreement
-- means for a packet.
use infrafence_agent.Base.{
  ℕ, suc, ◌+◌, ◌≤◌, Bool, true, false, some, List, [], ◌∷◌, length, ◌≡◌, refl, inl, inr, arith,
  Bool-cases, sym, ap, ◌∙◌, ◌≢◌, ◌↔◌, All, subst,
}
use mathlib.Core.Option.{some-injective}
use infrafence_agent.Base.Sort.{In}
use infrafence_agent.Base.Text.{same, same_refl, same-eq}
use infrafence_agent.Firewall.Lines.{Line, chain_name, rules_chain_name, jump_args, jump_line}
use infrafence_agent.Firewall.Jumps.{
  Iptables, Ensured, failed, ensured, jump_comment, rules_comment, input, place_behind, listed,
  rules_inserted, rules_placed, input_ensured, ensure_input_jumps, ensure_jump_ahead_of,
  needs_repair, listed_behind,
}
use infrafence_agent.Firewall.Ahead.{IsAhead, is_behind-IsAhead}
use infrafence_agent.Firewall.Targets.{HasTarget, IsHarmless, may_accept-IsHarmless}
use infrafence_agent.Firewall.Placed.{Obeys, IsPlaced, insert_at, ensure_jump_ahead_of-IsPlaced}

abbrev pub main_jump : Line
main_jump = jump_line input jump_comment chain_name

abbrev pub rules_jump : Line
rules_jump = jump_line input rules_comment rules_chain_name

IsAhead-In : (jump : Line) (ls : List Line) → IsAhead jump ls → In jump ls
IsAhead-In jump [] h = h
IsAhead-In jump (l ∷ ls) (inl e) = inl (sym e)
IsAhead-In jump (l ∷ ls) (inr h) = inr (IsAhead-In jump ls h.1)

-- A line put right behind the jump leaves it ahead.
abbrev Behind : Line → Line → ℕ → ℕ → List Line → Type 0
Behind main new i place ls =
    (d : ℕ) × (place ≡ i + d + 1)
    × (d ≤ length ls)
    × IsAhead main (insert_at d new ls)
    × In new (insert_at d new ls)

place_behind-Behind :
    (main new : Line) (i : ℕ) (ls : List Line)
    → IsAhead main ls
    → Behind main new i (place_behind main i ls) ls
unfolding place_behind
place_behind-Behind main new i [] h = absurd h
place_behind-Behind main new i (l ∷ ls) h = elim (Bool-cases (same l main)) [
  | inl t ↦
      rw (t, place_behind) (1, omega arith, omega arith, inl (same-eq l main t), inr (inl refl))
  | inr t ↦
      rw (t, place_behind)
        (elim h [
          | inl e ↦ absurd (cc (same_refl main, t, e))
          | inr (f, a) ↦
              let (d, e, le, ahead, mem) = place_behind-Behind main new (suc i) ls a in
              (suc d, omega (arith, e), omega (arith, le), inr (f, ahead), inr mem)
        ])
]

-- After a call of ensureInputJumps: without an error both jumps are in INPUT, the main one ahead of
-- each line that can accept; with one, the main jump is still there if it was.
abbrev pub InputReady : {K : Type 0} → Iptables K → List Line → Ensured × K → Type 0
InputReady ipt ls (ensured repaired, k) =
    (now : List Line) × (ipt.rules input k ≡ some now) × IsAhead main_jump now × In rules_jump now
InputReady ipt ls (failed e repaired, k) =
    (now : List Line) × (ipt.rules input k ≡ some now) × (In main_jump ls → In main_jump now)

module _ {K : Type 0} (ipt : Iptables K) (obeys : Obeys ipt) (ls : List Line) where
  rules_inserted-InputReady :
      (repaired now before : List Line) (r : Bool × K)
      → (r.0 ≡ true → ipt.rules input r.1 ≡ some now)
      → (r.0 ≡ false → ipt.rules input r.1 ≡ some before)
      → IsAhead main_jump now
      → In rules_jump now
      → In main_jump before
      → InputReady ipt ls (rules_inserted ipt repaired r)
  unfolding rules_inserted
  rules_inserted-InputReady rs now before (true, k) done kept a m b = (now, done refl, a, m)
  rules_inserted-InputReady rs now before (false, k) done kept a m b = (before, kept refl, λ h. b)

  rules_placed-InputReady :
      (repaired now : List Line) (k : K)
      → ipt.rules input k ≡ some now
      → IsAhead main_jump now
      → InputReady ipt ls (rules_placed ipt repaired k)
  unfolding rules_placed listed
  rules_placed-InputReady rs now k r a =
      let (d, e, le, ahead, mem) = place_behind-Behind main_jump rules_jump 0 now a in
      let place_eq : place_behind main_jump 0 now ≡ suc d = omega (arith, e) in
      rw (r, place_eq)
        (rules_inserted-InputReady rs (insert_at d rules_jump now) now
          (ipt.insert input (suc d) (jump_args rules_comment rules_chain_name) k)
          (obeys.inserted input rules_comment rules_chain_name d now k r le)
          (λ f. obeys.insert_kept input (suc d) (jump_args rules_comment rules_chain_name) k f ∙ r)
          ahead mem (IsAhead-In main_jump now a))

  input_ensured-InputReady :
      (r : Ensured × K)
      → IsPlaced ipt input main_jump ls r
      → InputReady ipt ls (input_ensured ipt r)
  unfolding input_ensured
  input_ensured-InputReady (failed e rs, k) (now, r, m, o) = (now, r, m)
  input_ensured-InputReady (ensured rs, k) (now, r, a, o) =
      elim (Bool-cases (ipt.check input (jump_args rules_comment rules_chain_name) k)) [
        | inl t ↦ rw t (now, r, a, obeys.checked input rules_comment rules_chain_name now k r t)
        | inr t ↦ rw t (rules_placed-InputReady rs now k r a)
      ]

  -- If INPUT can be listed, ensureInputJumps leaves both jumps in it, the main one ahead of each line
  -- that can accept; where a command fails, the main jump is still there if it was.
  pub ensure_input_jumps-InputReady :
      (k : K) → ipt.rules input k ≡ some ls → InputReady ipt ls (ensure_input_jumps ipt k)
  unfolding ensure_input_jumps
  ensure_input_jumps-InputReady k r =
      input_ensured-InputReady (ensure_jump_ahead_of ipt [] input jump_comment chain_name k)
        (ensure_jump_ahead_of-IsPlaced ipt [] input jump_comment chain_name ls obeys k r)

-- What a line does with one packet, and what the lines of a chain do with it in turn.
pub data Effect : Type 0 where
  accepts : Effect
  drops : Effect
  passes : Effect

unfoldable pub chain_effect : (Line → Effect) → List Line → Effect
chain_effect does [] = passes
chain_effect does (l ∷ ls) = elim (does l) [
  | accepts ↦ accepts
  | drops ↦ drops
  | passes ↦ chain_effect does ls
]

-- The jump drops the packet, and a line that accepts it does so by its target, which is no verdict but
-- ACCEPT, no chain of the agent and none of fail2ban or CrowdSec.
abbrev pub Blocks : (Line → Effect) → List Line → Type 0
Blocks does ls =
    (does main_jump ≡ drops)
    × All (λ l. does l ≡ accepts → (t : Line) × HasTarget l t × (IsHarmless t → ⊥)) ls

IsAhead-drops :
    (does : Line → Effect) (ls : List Line)
    → Blocks does ls
    → IsAhead main_jump ls
    → chain_effect does ls ≡ drops
unfolding chain_effect
IsAhead-drops does [] b h = absurd h
IsAhead-drops does (l ∷ ls) b (inl e) = ground (arith, b.0)
IsAhead-drops does (l ∷ ls) b (inr (f, a)) =
    let clear : does l ≢ accepts =
      λ q. (let (t, target, bad) = b.1.0 q in bad (may_accept-IsHarmless l t target f)) in
    ground (arith, clear, IsAhead-drops does ls (b.0, b.1.1) a)

listed_behind-IsAhead :
    (ls : List Line) → (listed_behind (some ls) ≡ some false) ↔ IsAhead main_jump ls
unfolding listed_behind
listed_behind-IsAhead ls = (
  λ h. (is_behind-IsAhead main_jump ls).0 (some-injective _ _ h),
  λ a. ap some ((is_behind-IsAhead main_jump ls).1 a),
)

module _ {K : Type 0} (ipt : Iptables K) where
  -- If NeedsRepair finds nothing to repair, INPUT drops each packet that the agent's chain drops, as far
  -- as a line of INPUT accepts a packet only by a target: the word behind the first `-j` or `-g` of the
  -- line, which is neither DROP, REJECT, RETURN nor LOG, nor a chain of the agent, of fail2ban or of
  -- CrowdSec. (A comment with a `-j` in it, or a RETURN under a policy that accepts, is another case.)
  pub needs_repair-drops :
      (does : Line → Effect) (ls : List Line) (k : K)
      → Blocks does ls
      → ipt.rules input k ≡ some ls
      → needs_repair ipt true false k ≡ some false
      → chain_effect does ls ≡ drops
  unfolding needs_repair
  needs_repair-drops does ls k b r h =
      IsAhead-drops does ls b ((listed_behind-IsAhead ls).0 (ap listed_behind (sym r) ∙ h))

  -- After ensureInputJumps without an error NeedsRepair finds nothing to repair.
  pub needs_repair-ensure_input_jumps :
      (ls repaired : List Line) (k k' : K)
      → Obeys ipt
      → ipt.rules input k ≡ some ls
      → ensure_input_jumps ipt k ≡ (ensured repaired, k')
      → needs_repair ipt true false k' ≡ some false
  unfolding needs_repair
  needs_repair-ensure_input_jumps ls rs k k' o r e =
      let (now, s, a, m) =
        subst (InputReady ipt ls) e (ensure_input_jumps-InputReady ipt o ls k r) in
      ap listed_behind s ∙ (listed_behind-IsAhead now).1 a
