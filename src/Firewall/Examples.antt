-- ===== src/Firewall/Examples.antt =====
-- Tests of the firewall's definitions, and its theorems at concrete inputs.
use infrafence_agent.Base.{
  ℕ, zero, suc, ◌+◌, Bool, true, false, some, List, [], ◌∷◌, ◌++◌, if◌then◌else◌, any, ◌∙◌,
  Bool-cases, ◌≡◌, refl, arith, inl, inr, ap, subst, ◌≢◌, ◌<◌, length, map,
}
use infrafence_agent.Base.Sort.{In, In-All}
use infrafence_agent.Base.Text.{codes, same, same_refl, same-eq}
use mathlib.Core.Option.{some-injective}
use infrafence_agent.Firewall.Lines.{
  Line, chain_name, rules_chain_name, ports_chain_name, egress_chain_name, jump_line, fields,
  to_lower, may_accept, join_words, jump_position,
}
use infrafence_agent.Firewall.Jumps.{
  Iptables, jump_comment, input, needs_repair, ensure_jump_ahead_of, ensure_input_jumps,
  ensure_first_jump,
}
use infrafence_agent.Firewall.Placed.{
  Obeys, IsPlaced, insert_at, remove_at, ensure_jump_ahead_of-IsPlaced,
}
use infrafence_agent.Firewall.Input.{
  main_jump, rules_jump, Effect, accepts, drops, passes, chain_effect, needs_repair-drops,
  needs_repair-ensure_input_jumps,
}
use infrafence_agent.Firewall.Targets.{HasTarget, IsHarmless, Begins, no_accept_names}
use infrafence_agent.Firewall.First.{IsFirst, ensure_first_jump-IsFirst}

-- A kernel whose chains are lists of lines, and whose commands succeed.
abbrev Kernel : Type 0
Kernel = Line → List Line

abbrev put_chain : Line → List Line → Kernel → Kernel
put_chain chain ls k c = if same chain c then ls else k c

abbrev insert_line : Line → ℕ → List Line → Kernel → Bool × Kernel
insert_line chain zero args k = (false, k)
insert_line chain (suc n) args k = (
  true,
  put_chain chain (insert_at n (codes "-A " ++ chain ++ codes " " ++ join_words args) (k chain)) k,
)

abbrev delete_line : Line → ℕ → Kernel → Bool × Kernel
delete_line chain zero k = (false, k)
delete_line chain (suc n) k = (true, put_chain chain (remove_at n (k chain)) k)

abbrev has_line : Line → List Line → Kernel → Bool
has_line chain args k = any (k chain) (same (codes "-A " ++ chain ++ codes " " ++ join_words args))

abbrev simple : Iptables Kernel
simple = record {
  rules = λ chain k. some (k chain);
  insert = insert_line;
  delete = delete_line;
  check = has_line;
}

put_chain-same : (chain : Line) (ls : List Line) (k : Kernel) → put_chain chain ls k chain ≡ ls
put_chain-same chain ls k = rw (same_refl chain) refl

insert_line-kept :
    (chain : Line) (place : ℕ) (args : List Line) (k : Kernel)
    → (insert_line chain place args k).0 ≡ false
    → (insert_line chain place args k).1 chain ≡ k chain
insert_line-kept chain zero args k f = refl
insert_line-kept chain (suc n) args k f = cc

delete_line-kept :
    (chain : Line) (place : ℕ) (k : Kernel)
    → (delete_line chain place k).0 ≡ false
    → (delete_line chain place k).1 chain ≡ k chain
delete_line-kept chain zero k f = refl
delete_line-kept chain (suc n) k f = cc

delete_line-removed :
    (chain : Line) (n place : ℕ) (ls : List Line) (k : Kernel)
    → k chain ≡ ls
    → n ≡ place + 1
    → (delete_line chain n k).1 chain ≡ remove_at place ls
delete_line-removed chain zero place ls k r e = absurd (omega (arith, e))
delete_line-removed chain (suc n) place ls k r e =
    let same_place : n ≡ place = omega (arith, e) in
    put_chain-same chain (remove_at n (k chain)) k ∙ rw (r, same_place) refl

any-In : (l : Line) (ls : List Line) → any ls (same l) ≡ true → In l ls
any-In l [] h = absurd (cc)
any-In l (x ∷ ls) h = elim (Bool-cases (same l x)) [
  | inl t ↦ inl (same-eq l x t)
  | inr t ↦ inr (any-In l ls (ground arith))
]

simple-Obeys : Obeys simple
unfolding jump_line
simple-Obeys = record {
  inserted = λ chain comment target place ls k r le t. ap some (
      put_chain-same chain _ k
      ∙ ap (insert_at place (jump_line chain comment target)) (some-injective _ _ r));
  insert_kept = λ chain place args k f. ap some (insert_line-kept chain place args k f);
  deleted = λ chain n place ls k r e lt t.
      ap some (delete_line-removed chain n place ls k (some-injective _ _ r) e);
  delete_kept = λ chain place k f. ap some (delete_line-kept chain place k f);
  checked = λ chain comment target ls k r t.
      subst (In (jump_line chain comment target)) (some-injective _ _ r) (any-In _ (k chain) t);
}

-- CSF's rules with the agent's jump behind its accept, and none of it in Docker's chain.
abbrev accept_line : Line
accept_line = codes "-A INPUT -i lo -j ACCEPT"

abbrev fail2ban_line : Line
fail2ban_line = codes "-A INPUT -p tcp -j f2b-sshd"

abbrev behind_accept : Kernel
behind_accept c =
    if same c input then fail2ban_line ∷ accept_line ∷ main_jump ∷ [] else accept_line ∷ []

may_accept-accept : may_accept accept_line ≡ true
unfolding may_accept
may_accept-accept = refl

may_accept-fail2ban : may_accept fail2ban_line ≡ false
unfolding may_accept
may_accept-fail2ban = refl

-- A RETURN in INPUT is taken not to accept, though the policy of the chain may; and a comment that
-- spells a jump hides the rule's own.
may_accept-return : may_accept (codes "-A INPUT -s 1.2.3.0/24 -j RETURN") ≡ false
unfolding may_accept
may_accept-return = refl

may_accept-comment :
    may_accept (codes "-A INPUT -m comment --comment \"no -j DROP here\" -j ACCEPT") ≡ false
unfolding may_accept
may_accept-comment = refl

needs_repair_test : needs_repair simple true false behind_accept ≡ some true
unfolding needs_repair jump_position may_accept jump_line
needs_repair_test = refl

ensured_test :
    (ensure_input_jumps simple behind_accept).1 input
    ≡ main_jump ∷ rules_jump ∷ fail2ban_line ∷ accept_line ∷ []
unfolding ensure_input_jumps may_accept jump_position jump_line
ensured_test = refl

abbrev docker : Line
docker = codes "DOCKER-USER"

abbrev lines_before : List Line
lines_before = behind_accept input

ensure_jump_ahead_of-IsPlaced_example :
    IsPlaced simple input main_jump lines_before
      (ensure_jump_ahead_of simple [] input jump_comment chain_name behind_accept)
ensure_jump_ahead_of-IsPlaced_example =
    ensure_jump_ahead_of-IsPlaced simple [] input jump_comment chain_name lines_before simple-Obeys
      behind_accept refl

ensure_first_jump-IsFirst_example :
    IsFirst simple docker
      (jump_line docker jump_comment chain_name)
      (accept_line ∷ [])
      (ensure_first_jump simple [] docker jump_comment chain_name behind_accept)
ensure_first_jump-IsFirst_example =
    ensure_first_jump-IsFirst simple simple-Obeys docker [] jump_comment chain_name
      (accept_line ∷ []) behind_accept refl

abbrev repaired : Kernel
repaired = (ensure_input_jumps simple behind_accept).1

needs_repair-ensure_input_jumps_example : needs_repair simple true false repaired ≡ some false
unfolding ensure_input_jumps may_accept jump_position jump_line
needs_repair-ensure_input_jumps_example =
    needs_repair-ensure_input_jumps simple lines_before
      (codes "jump-order:INPUT" ∷ codes "jump:INPUT-rules" ∷ []) behind_accept repaired simple-Obeys
      refl refl

-- The agent's chain drops the packet, an ACCEPT accepts it, and the chain of fail2ban passes it on.
does : Line → Effect
does l = if same l main_jump then drops else if same l accept_line then accepts else passes

abbrev lines_after : List Line
lines_after = main_jump ∷ fail2ban_line ∷ accept_line ∷ []

abbrev ahead : Kernel
ahead c = lines_after

accept_line-HasTarget : HasTarget accept_line (codes "ACCEPT")
unfolding fields
accept_line-HasTarget = (
  codes "-A" ∷ codes "INPUT" ∷ codes "-i" ∷ codes "lo" ∷ [],
  [],
  codes "-j",
  refl,
  refl,
  (refl, (refl, (refl, (refl, tt)))),
)

not_same : (s t : Line) → same s t ≡ false → s ≡ t → ⊥
not_same s t h e =
    let q : same s t ≡ true = subst (λ u. same s u ≡ true) e (same_refl s) in cc (h, q)

abbrev first_code : Line → ℕ
first_code [] = 0
first_code (c ∷ s) = c

not-Begins : (s p : Line) → first_code s ≢ first_code p → 0 < length p → Begins s p → ⊥
not-Begins s [] n h b = omega (arith, h)
not-Begins s (c ∷ p) n h (rest, e) = n (ap first_code e)

accept_target_counts : IsHarmless (codes "ACCEPT") → ⊥
unfolding to_lower
accept_target_counts h = elim h [
  | inl m ↦
      In-All (λ n. n ≢ codes "ACCEPT") (codes "ACCEPT") no_accept_names
        (
          not_same (codes "DROP") (codes "ACCEPT") refl,
          (
            not_same (codes "REJECT") (codes "ACCEPT") refl,
            (
              not_same (codes "RETURN") (codes "ACCEPT") refl,
              (
                not_same (codes "LOG") (codes "ACCEPT") refl,
                (
                  not_same (chain_name) (codes "ACCEPT") refl,
                  (
                    not_same (rules_chain_name) (codes "ACCEPT") refl,
                    (
                      not_same (ports_chain_name) (codes "ACCEPT") refl,
                      (not_same (egress_chain_name) (codes "ACCEPT") refl, tt),
                    ),
                  ),
                ),
              ),
            ),
          ),
        )
        m refl
  | inr (inl b) ↦ not-Begins (codes "ACCEPT") (codes "f2b-") (λ e. omega (arith, e)) (omega arith) b
  | inr (inr (inl b)) ↦
      not-Begins (codes "ACCEPT") (codes "fail2ban") (λ e. omega (arith, e)) (omega arith) b
  | inr (inr (inr b)) ↦
      not-Begins (map to_lower (codes "ACCEPT")) (codes "crowdsec") (λ e. omega (arith, e))
        (omega arith) b
]

needs_repair-drops_example : chain_effect does lines_after ≡ drops
unfolding does needs_repair may_accept jump_position jump_line
needs_repair-drops_example =
    needs_repair-drops simple does lines_after ahead
      (
        refl,
        (
          λ q. cc,
          (λ q. cc, (λ q. (codes "ACCEPT", accept_line-HasTarget, accept_target_counts), tt)),
        ),
      )
      refl refl
