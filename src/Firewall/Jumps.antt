-- ===== src/Firewall/Jumps.antt =====
-- internal/firewall/chain.go: keeping the jumps to the agent's chains in place. The commands of
-- iptables are those of a record; a kernel is what they change.
use infrafence_agent.Base.{
  ℕ, suc, ◌+◌, Bool, true, false, not, ◌||◌, Option, none, some, List, [], ◌∷◌, ◌++◌, ltb,
  if◌then◌else◌,
}
use infrafence_agent.Base.Text.{codes, same}
use infrafence_agent.Firewall.Lines.{
  Line, chain_name, rules_chain_name, jump_args, jump_line, jump_position, is_behind,
}

-- `rules` has the lines with `-A` that `iptables -S chain` prints, or none when it fails; `insert`
-- is `iptables -I chain place args`, `delete` is `iptables -D chain place`, both with their success,
-- and `check` tells whether `iptables -C chain args` succeeds.
pub record Iptables (K : Type 0) : Type 0 where
  pub rules : Line → K → Option (List Line)
  pub insert : Line → ℕ → List Line → K → Bool × K
  pub delete : Line → ℕ → K → Bool × K
  pub check : Line → List Line → K → Bool

pub data Failure : Type 0 where
  cannot_list : Failure
  insert_jump : Failure
  move_jump : Failure
  remove_jump : Failure
  insert_rules_jump : Failure

-- The error with the repairs reported beside it, or the repairs that were made.
pub data Ensured : Type 0 where
  failed : Failure → List Line → Ensured
  ensured : List Line → Ensured

abbrev pub jump_comment : Line
jump_comment = codes "infrafence"

abbrev pub rules_comment : Line
rules_comment = codes "infrafence-rules"

abbrev pub input : Line
input = codes "INPUT"

-- The place right behind the first line that is the jump to the main chain, 1 without one.
unfoldable pub place_behind : Line → ℕ → List Line → ℕ
place_behind main i [] = 1
place_behind main i (l ∷ ls) = if same l main then i + 2 else place_behind main (suc i) ls

unfoldable pub listed : Option (List Line) → List Line
listed none = []
listed (some lines) = lines

unfoldable pub listed_behind : Option (List Line) → Option Bool
listed_behind none = none
listed_behind (some lines) =
    let (ours, first_accept) = jump_position lines (jump_line input jump_comment chain_name) in
    some (is_behind ours first_accept)

unfoldable pub starts_with : Line → List Line → Bool
starts_with jump [] = false
starts_with jump (l ∷ ls) = same l jump

module _ {K : Type 0} (ipt : Iptables K) where
  unfoldable pub jump_inserted : Line → Line → Line → Line → Bool × K → Ensured × K
  jump_inserted prefix chain comment target (false, k) = (failed insert_jump [], k)
  jump_inserted prefix chain comment target (true, k) =
      (ensured ((codes "jump:" ++ prefix ++ chain) ∷ []), k)

  unfoldable pub jump_removed : Line → Line → Bool × K → Ensured × K
  jump_removed prefix chain (false, k) = (failed remove_jump [], k)
  jump_removed prefix chain (true, k) = (ensured ((codes "jump-order:" ++ prefix ++ chain) ∷ []), k)

  -- The new jump stands first; the old one is deleted by its number.
  unfoldable pub jump_moved : Line → Line → ℕ → Bool × K → Ensured × K
  unfolding jump_removed
  jump_moved prefix chain ours (false, k) = (failed move_jump [], k)
  jump_moved prefix chain ours (true, k) = jump_removed prefix chain (ipt.delete chain (ours + 2) k)

  unfoldable pub place_jump : Line → Line → Line → Line → Option ℕ × Option ℕ → K → Ensured × K
  unfolding jump_inserted jump_moved
  place_jump prefix chain comment target (none, first_accept) k =
      jump_inserted prefix chain comment target (ipt.insert chain 1 (jump_args comment target) k)
  place_jump prefix chain comment target (some ours, none) k = (ensured [], k)
  place_jump prefix chain comment target (some ours, some first_accept) k =
      if ltb first_accept ours
      then jump_moved prefix chain ours (ipt.insert chain 1 (jump_args comment target) k)
      else (ensured [], k)

  unfoldable pub ensure_listed : Line → Line → Line → Line → Option (List Line) → K → Ensured × K
  unfolding place_jump
  ensure_listed prefix chain comment target none k = (failed cannot_list [], k)
  ensure_listed prefix chain comment target (some lines) k =
      place_jump prefix chain comment target (jump_position lines (jump_line chain comment target))
        k

  unfoldable pub ensure_jump_ahead_of : Line → Line → Line → Line → K → Ensured × K
  unfolding ensure_listed
  ensure_jump_ahead_of prefix chain comment target k =
      ensure_listed prefix chain comment target (ipt.rules chain k) k

  unfoldable pub rules_inserted : List Line → Bool × K → Ensured × K
  rules_inserted repaired (false, k) = (failed insert_rules_jump repaired, k)
  rules_inserted repaired (true, k) = (ensured (repaired ++ codes "jump:INPUT-rules" ∷ []), k)

  unfoldable pub rules_placed : List Line → K → Ensured × K
  unfolding place_behind listed rules_inserted
  rules_placed repaired k =
      let main = jump_line input jump_comment chain_name in
      let place = place_behind main 0 (listed (ipt.rules input k)) in
      rules_inserted repaired (ipt.insert input place (jump_args rules_comment rules_chain_name) k)

  unfoldable pub input_ensured : Ensured × K → Ensured × K
  unfolding rules_placed
  input_ensured (failed e repaired, k) = (failed e [], k)
  input_ensured (ensured repaired, k) =
      if ipt.check input (jump_args rules_comment rules_chain_name) k
      then (ensured repaired, k)
      else rules_placed repaired k

  unfoldable pub ensure_input_jumps : K → Ensured × K
  unfolding input_ensured ensure_jump_ahead_of
  ensure_input_jumps k = input_ensured (ensure_jump_ahead_of [] input jump_comment chain_name k)

  -- `none` is the error that is not a verdict.
  unfoldable pub needs_repair : Bool → Bool → K → Option Bool
  unfolding listed_behind is_behind
  needs_repair initialized disabled k =
      if not initialized || disabled then some false else listed_behind (ipt.rules input k)

  -- From the last line to the first, so that the numbers stay those of the listing.
  unfoldable pub delete_jumps : Line → Line → ℕ → List Line → K → K
  delete_jumps chain jump i [] k = k
  delete_jumps chain jump i (l ∷ ls) k =
      let rest = delete_jumps chain jump (suc i) ls k in
      if same l jump then (ipt.delete chain (i + 1) rest).1 else rest

  unfoldable pub first_inserted : Line → Line → Bool × K → List Line × K
  first_inserted prefix chain (false, k) = ([], k)
  first_inserted prefix chain (true, k) = ((codes "jump:" ++ prefix ++ chain) ∷ [], k)

  unfoldable pub put_first : Line → Line → Line → Line → List Line → K → List Line × K
  unfolding delete_jumps starts_with first_inserted
  put_first prefix chain comment target lines k =
      let jump = jump_line chain comment target in
      if starts_with jump lines
      then ([], k)
      else first_inserted prefix chain
          (ipt.insert chain 1 (jump_args comment target) (delete_jumps chain jump 0 lines k))

  -- A chain that cannot be listed is not there: no Docker yet.
  unfoldable pub first_listed : Line → Line → Line → Line → Option (List Line) → K → List Line × K
  unfolding put_first
  first_listed prefix chain comment target none k = ([], k)
  first_listed prefix chain comment target (some lines) k =
      put_first prefix chain comment target lines k

  unfoldable pub ensure_first_jump : Line → Line → Line → Line → K → List Line × K
  unfolding first_listed
  ensure_first_jump prefix chain comment target k =
      first_listed prefix chain comment target (ipt.rules chain k) k
