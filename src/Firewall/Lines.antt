-- ===== src/Firewall/Lines.antt =====
-- internal/firewall/chain.go: the rules of a chain as `iptables -S` prints them, one line of code
-- points each, what a line may accept, and where the agent's jump stands among the lines.
use infrafence_agent.Base.{
  ℕ, suc, ◌+◌, Bool, true, false, ◌&&◌, ◌||◌, Option, none, some, List, [], ◌∷◌, ◌++◌, map, ltb,
  leb, ◌==◌, if◌then◌else◌, is_some,
}
use infrafence_agent.Base.Text.{codes, same, is_space}

abbrev pub Line : Type 0
Line = List ℕ

abbrev pub chain_name : Line
chain_name = codes "INFRAFENCE"

abbrev pub rules_chain_name : Line
rules_chain_name = codes "INFRAFENCE-RULES"

abbrev pub ports_chain_name : Line
ports_chain_name = codes "INFRAFENCE-PORTS"

abbrev pub egress_chain_name : Line
egress_chain_name = codes "INFRAFENCE-EGRESS"

-- A word that has ended, unless it is empty.
unfoldable pub word : Line → List Line → List Line
word [] rest = rest
word (c ∷ w) rest = (c ∷ w) ∷ rest

unfoldable pub fields_from : Line → Line → List Line
unfolding word is_space
fields_from w [] = word w []
fields_from w (c ∷ s) = elim (is_space c) [
  | true ↦ word w (fields_from [] s)
  | false ↦ fields_from (w ++ c ∷ []) s
]

-- `strings.Fields`.
unfoldable pub fields : Line → List Line
unfolding fields_from
fields s = fields_from [] s

-- `strings.HasPrefix`.
unfoldable pub has_prefix : Line → Line → Bool
has_prefix s [] = true
has_prefix [] (p ∷ ps) = false
has_prefix (c ∷ s) (p ∷ ps) = c == p && has_prefix s ps

-- `unicode.ToLower`, as far as a code point has an ASCII letter as its lower case.
unfoldable pub to_lower : ℕ → ℕ
to_lower c =
    if leb 0x41 c && leb c 0x5A
    then c + 32
    else if c == 0x130
    then 0x69
    else if c == 0x212A
    then 0x6B
    else c

-- The switch on the target of a jump.
unfoldable pub target_accepts : Line → Bool
unfolding has_prefix to_lower
target_accepts t =
    if same t (codes "ACCEPT")
    then true
    else if same t (codes "DROP")
        || same t (codes "REJECT")
        || same t (codes "RETURN")
        || same t (codes "LOG")
    then false
    else if same t chain_name
        || same t rules_chain_name
        || same t ports_chain_name
        || same t egress_chain_name
    then false
    else if has_prefix t (codes "f2b-")
        || has_prefix t (codes "fail2ban")
        || has_prefix (map to_lower t) (codes "crowdsec")
    then false
    else true

-- The word behind a `-j`, if there is one.
unfoldable pub jump_accepts : List Line → Bool
unfolding target_accepts
jump_accepts [] = false
jump_accepts (t ∷ rest) = target_accepts t

unfoldable pub words_accept : List Line → Bool
unfolding jump_accepts
words_accept [] = false
words_accept (f ∷ rest) =
    let later = words_accept rest in
    if same f (codes "-j") || same f (codes "-g") then jump_accepts rest else later

unfoldable pub may_accept : Line → Bool
unfolding fields words_accept
may_accept line = words_accept (fields line)

unfoldable pub jump_args : Line → Line → List Line
jump_args comment target =
    codes "-m" ∷ codes "comment" ∷ codes "--comment" ∷ comment ∷ codes "-j" ∷ target ∷ []

-- `strings.Join(words, " ")`.
unfoldable pub join_words : List Line → Line
join_words [] = []
join_words (w ∷ []) = w
join_words (w ∷ v ∷ rest) = w ++ codes " " ++ join_words (v ∷ rest)

unfoldable pub jump_line : Line → Line → Line → Line
unfolding jump_args join_words
jump_line chain comment target =
    codes "-A " ++ chain ++ codes " " ++ join_words (jump_args comment target)

-- The loop of `jumpPosition` from index `i` on: an index is found, or `none` stands for -1.
unfoldable pub positions_from : Line → ℕ → List Line → Option ℕ → Option ℕ → Option ℕ × Option ℕ
positions_from jump i [] ours first_accept = (ours, first_accept)
positions_from jump i (l ∷ ls) ours first_accept =
    positions_from jump (suc i) ls
      (if is_some ours then ours else if same l jump then some i else none)
      (if is_some first_accept then first_accept else if may_accept l then some i else none)

unfoldable pub jump_position : List Line → Line → Option ℕ × Option ℕ
unfolding positions_from
jump_position lines jump = positions_from jump 0 lines none none

-- The test of `NeedsRepair` and of `ensureJumpAheadOf`: the jump is gone, or behind a rule that can
-- accept.
unfoldable pub is_behind : Option ℕ → Option ℕ → Bool
is_behind none first_accept = true
is_behind (some ours) none = false
is_behind (some ours) (some first_accept) = ltb first_accept ours
