-- ===== src/Firewall/ById.antt =====
-- internal/firewall/rules.go and iptables.go: the dashboard's rules by ID, and the arguments of
-- iptables that each stands for. The call of Ensure after a change is told by a Boolean.
use infrafence_agent.Base.{
  ℕ, ◌+◌, ◌%◌, ◌^◌, Bool, true, false, not, ◌&&◌, ◌||◌, Option, none, some, List, [], ◌∷◌, ◌++◌,
  ltb, leb, ◌==◌, if◌then◌else◌, any, select, length,
}
use infrafence_agent.Base.Dict.{Dict, lookup, insert, delete, retain, has}
use infrafence_agent.Base.Keys.{nat_key}
use infrafence_agent.Base.Text.{codes, same}
use infrafence_agent.Firewall.Lines.{Line}
use infrafence_agent.Firewall.Chain.{decimal}

pub record RuleSpec : Type 0 where
  pub kind : Line
  pub protocol : Line
  pub ip_address : Option Line
  pub ip_range : Option Line
  pub port : Option ℕ

unfoldable pub text_or : Option Line → Line → Line
text_or none other = other
text_or (some []) other = other
text_or (some (c ∷ s)) other = c ∷ s

-- `source`: the address, or else the range, or else nothing.
unfoldable pub source : RuleSpec → Line
unfolding text_or
source spec = text_or spec.ip_address (text_or spec.ip_range [])

unfoldable pub source_args : Line → List Line
source_args [] = []
source_args (c ∷ s) = codes "-s" ∷ (c ∷ s) ∷ []

-- The protocol that the rule gets in the end: none given, and a port makes it tcp.
unfoldable pub any_protocol : Line → Bool
any_protocol p = same p [] || same p (codes "all")

unfoldable pub protocol_args : Line → Option ℕ → List Line
unfolding any_protocol
protocol_args p none = if any_protocol p then [] else codes "-p" ∷ p ∷ []
protocol_args p (some port) = codes "-p" ∷ (if any_protocol p then codes "tcp" else p) ∷ []

unfoldable pub port_args : Line → Option ℕ → List Line
unfolding any_protocol decimal
port_args p none = []
port_args p (some port) =
    let proto = if any_protocol p then codes "tcp" else p in
    if same proto (codes "tcp") || same proto (codes "udp")
    then codes "--dport" ∷ decimal port ∷ []
    else []

unfoldable pub build_rule_args : RuleSpec → List Line
unfolding source source_args protocol_args port_args
build_rule_args spec =
    source_args (source spec)
    ++ (protocol_args spec.protocol spec.port
        ++ (port_args spec.protocol spec.port
            ++ (codes "-j"
                ∷ (if same spec.kind (codes "allow") then codes "ACCEPT" else codes "DROP")
                ∷ [])))

-- `equal`.
unfoldable pub equal : List Line → List Line → Bool
equal [] [] = true
equal [] (y ∷ ys) = false
equal (x ∷ xs) [] = false
equal (x ∷ xs) (y ∷ ys) = same x y && equal xs ys

-- ruleArgs, ruleGen, ruleTouched, ruleRemoved and fw.userRules.
pub record Rules : Type 0 where
  pub args : Dict ℕ (List Line)
  pub gen : ℕ
  pub touched : Dict ℕ ℕ
  pub removed : Dict ℕ Bool
  pub user_rules : List (List Line)

abbrev pub no_rules : Rules
no_rules = record { args = []; gen = 0; touched = []; removed = []; user_rules = [] }

-- A 64-bit count.
unfoldable pub next_gen : ℕ → ℕ
next_gen gen = (gen + 1) % 2 ^ 64

unfoldable pub add_user_rule : List Line → List (List Line) → List (List Line)
unfolding equal
add_user_rule a rules = if any rules (λ r. equal r a) then rules else rules ++ a ∷ []

-- `ApplyRuleID`, with whether Ensure is called.
unfoldable pub apply_rule_id : ℕ → RuleSpec → Rules → Rules × Bool
unfolding next_gen add_user_rule build_rule_args
apply_rule_id id spec s =
    let a = build_rule_args spec in
    let gen = next_gen s.gen in
    (
      record {
        args = insert id a s.args;
        gen = gen;
        touched = insert id gen s.touched;
        removed = delete id s.removed;
        user_rules = add_user_rule a s.user_rules;
      },
      not (any s.user_rules (λ r. equal r a)),
    )

unfoldable pub in_force : Dict ℕ (List Line) → List Line → Bool
unfolding equal
in_force args r = any args (λ e. equal r e.1)

-- `dropUnusedRuleArgsLocked`: the rules that stay, and whether any went.
unfoldable pub drop_unused : Dict ℕ (List Line) → List (List Line) → List (List Line) × Bool
unfolding in_force
drop_unused args rules =
    let kept = select (in_force args) rules in
    if length kept == length rules then (rules, false) else (kept, true)

-- The rest of `RemoveRuleID` once the ID was looked up; `has_id` is `ok`.
unfoldable pub remove_known : Bool → Rules → Rules × Bool × Bool
unfolding drop_unused
remove_known false s = (s, false, false)
remove_known true s =
    let (rules, changed) = drop_unused s.args s.user_rules in
    (record s { user_rules = rules }, true, changed)

-- `RemoveRuleID`, with whether the agent had the rule and whether Ensure is called.
unfoldable pub remove_rule_id : ℕ → Rules → Rules × Bool × Bool
unfolding next_gen remove_known
remove_rule_id id s =
    let gen = next_gen s.gen in
    remove_known (has id s.args) (record s {
      args = delete id s.args;
      gen = gen;
      touched = insert id gen s.touched;
      removed = insert id true s.removed;
    })

abbrev pub zero_or : Option ℕ → ℕ
zero_or none = 0
zero_or (some n) = n

abbrev pub false_or : Option Bool → Bool
false_or none = false
false_or (some b) = b

-- `RuleRemovedSince`; a key that is missing reads as zero and as false.
unfoldable pub rule_removed_since : ℕ → ℕ → Rules → Bool
rule_removed_since id gen s =
    false_or (lookup id s.removed) && ltb gen (zero_or (lookup id s.touched))

unfoldable pub listed : ℕ → List ℕ → Bool
listed id keep = any keep (λ k. k == id)

-- The rules that the sync lists, or that were touched after it was asked for.
unfoldable pub still_in_force : ℕ → List ℕ → Dict ℕ ℕ → Dict ℕ (List Line) → Dict ℕ (List Line)
unfolding listed
still_in_force gen keep touched args =
    retain (λ id a. listed id keep || ltb gen (zero_or (lookup id touched))) args

-- What the second loop forgets: an old change of an ID that stands for no rule.
unfoldable pub forgotten : ℕ → Dict ℕ (List Line) → Option ℕ → ℕ → Bool
forgotten gen args none id = false
forgotten gen args (some g) id = leb g gen && not (has id args)

-- `ReconcileRules`, with whether Ensure is called. A rule's arguments are never empty, so that nil
-- in ruleArgs is a missing key.
unfoldable pub reconcile_rules : ℕ → List ℕ → Rules → Rules × Bool
unfolding still_in_force forgotten drop_unused
reconcile_rules gen keep s =
    let args = still_in_force gen keep s.touched s.args in
    let (rules, changed) = drop_unused args s.user_rules in
    (
      record s {
        args = args;
        touched = retain (λ id g. not (forgotten gen args (lookup id s.touched) id)) s.touched;
        removed = retain (λ id b. not (forgotten gen args (lookup id s.touched) id)) s.removed;
        user_rules = rules;
      },
      changed,
    )
