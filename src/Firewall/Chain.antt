-- ===== src/Firewall/Chain.antt =====
-- internal/firewall/chain.go and portsegress.go: the contents that the agent wants in its chains, as
-- rules and as the lines that spell them.
use infrafence_agent.Base.{
  ℕ, zero, suc, ◌+◌, ◌/◌, ◌%◌, Bool, true, false, not, ◌&&◌, Option, none, some, List, [], ◌∷◌,
  ◌++◌, map, ltb, if◌then◌else◌, any,
}
use infrafence_agent.Base.Dict.{Dict}
use infrafence_agent.Base.Sort.{sort_by}
use infrafence_agent.Base.Text.{codes, same, lex_lt}
use infrafence_agent.Firewall.Lines.{
  Line, chain_name, rules_chain_name, ports_chain_name, egress_chain_name, join_words,
}

abbrev pub allow_set_name : Line
allow_set_name = codes "infrafence-allow"

abbrev pub ban_set_name : Line
ban_set_name = codes "infrafence-bans"

abbrev pub threat_set_name : Line
threat_set_name = codes "infrafence-threat"

abbrev pub egress_set_name : Line
egress_set_name = codes "infrafence-egress"

-- What `parseNet` finds in a text: the network as `String` spells it, and whether it is of IPv4.
pub record Net : Type 0 where
  pub text : Line
  pub is_v4 : Bool

-- What a rule asks of a packet.
pub data Match : Type 0 where
  every : Match
  source_in_set : Line → Match
  source_in : Line → Match
  target_in_set : Line → Match
  target_in : Line → Match
  loopback : Match
  opens_port : ℕ → Match

pub data Target : Type 0 where
  return : Target
  drop : Target
  jump : Line → Target

abbrev pub Rule : Type 0
Rule = Match × Target

-- The part of fwState that the rules come from. `protected` is protectedList and `local` the public
-- addresses of this server; `threat` is none when threat feeds do not block.
pub record Desired : Type 0 where
  pub protected : List Line
  pub local : List Line
  pub allow : List Line
  pub bans : List Line
  pub threat : Option (List Line)
  pub geo : Dict Line (List Line)
  pub user_rules : List (List Line)
  pub closed_ports : List ℕ
  pub egress : List Line

unfoldable pub add_net : List Line → Option Net → List Line
add_net out none = out
add_net out (some n) = if n.is_v4 && not (any out (same n.text)) then out ++ n.text ∷ [] else out

unfoldable pub ban_net : Option Net → List Line → List Line
ban_net none out = out
ban_net (some n) out = if n.is_v4 then n.text ∷ out else out

unfoldable pub sub_jumps : List Rule
sub_jumps = (every, jump ports_chain_name) ∷ (every, jump egress_chain_name) ∷ []

unfoldable pub threat_rules : Option (List Line) → List Rule
threat_rules none = []
threat_rules (some nets) = (source_in_set threat_set_name, drop) ∷ []

unfoldable pub geo_names : Dict Line (List Line) → List Line
geo_names [] = []
geo_names ((set, cidrs) ∷ rest) = set ∷ geo_names rest

unfoldable pub allow_rules : Bool → List Line → List Rule
allow_rules true [] = []
allow_rules true (a ∷ rest) = (source_in_set allow_set_name, return) ∷ []
allow_rules false entries = map (λ a. (source_in a, return)) entries

module _ (parse_net : Line → Option Net) where
  -- The texts seen so far are those in `out`.
  unfoldable pub add_entries : List Line → List Line → List Line
  unfolding add_net
  add_entries out [] = out
  add_entries out (v ∷ vs) = add_entries (add_net out (parse_net v)) vs

  unfoldable pub allow_entries : Desired → List Line
  unfolding add_entries sort_by
  allow_entries s = sort_by lex_lt (add_entries [] (s.protected ++ (s.local ++ s.allow)))

  unfoldable pub ban_nets : List Line → List Line
  unfolding ban_net
  ban_nets [] = []
  ban_nets (ip ∷ ips) = ban_net (parse_net ip) (ban_nets ips)

  unfoldable pub drop_rules : Bool → Desired → List Rule
  unfolding threat_rules geo_names ban_nets sort_by
  drop_rules true s =
      (source_in_set ban_set_name, drop)
      ∷ (threat_rules s.threat
          ++ map (λ set. (source_in_set set, drop)) (sort_by lex_lt (geo_names s.geo)))
  drop_rules false s = map (λ b. (source_in b, drop)) (sort_by lex_lt (ban_nets s.bans))

  -- `desiredRules`, the main chain: `ipset` tells whether the host has ipset.
  unfoldable pub desired_rules : Bool → Desired → List Rule
  unfolding allow_rules allow_entries sub_jumps drop_rules
  desired_rules ipset s = allow_rules ipset (allow_entries s) ++ (sub_jumps ++ drop_rules ipset s)

abbrev pub private_sources : List Line
private_sources =
    codes "10.0.0.0/8"
    ∷ codes "100.64.0.0/10"
    ∷ codes "127.0.0.0/8"
    ∷ codes "169.254.0.0/16"
    ∷ codes "172.16.0.0/12"
    ∷ codes "192.168.0.0/16"
    ∷ []

-- `portsEgressRules`: the two chains that the main chain jumps to.
unfoldable pub ports_rules : List ℕ → List Rule
ports_rules [] = []
ports_rules (p ∷ ps) =
    (loopback, return)
    ∷ (map (λ n. (source_in n, return)) private_sources ++ map (λ q. (opens_port q, drop)) (p ∷ ps))

unfoldable pub egress_rules : Bool → List Line → List Rule
egress_rules true [] = []
egress_rules true (ip ∷ ips) = (target_in_set egress_set_name, drop) ∷ []
egress_rules false ips = map (λ ip. (target_in (ip ++ codes "/32"), drop)) ips

-- The decimal digits of a number, from the last one on.
unfoldable pub decimal_from : ℕ → ℕ → Line → Line
decimal_from zero n out = out
decimal_from (suc f) n out =
    let more = decimal_from f (n / 10) ((48 + n % 10) ∷ out) in
    if ltb n 10 then (48 + n) ∷ out else more

unfoldable pub decimal : ℕ → Line
unfolding decimal_from
decimal n = decimal_from (suc n) n []

unfoldable pub match_text : Match → Line
unfolding decimal
match_text every = []
match_text (source_in_set s) = codes " -m set --match-set " ++ s ++ codes " src"
match_text (source_in n) = codes " -s " ++ n
match_text (target_in_set s) = codes " -m set --match-set " ++ s ++ codes " dst"
match_text (target_in n) = codes " -d " ++ n
match_text loopback = codes " -i lo"
match_text (opens_port p) = codes " -p tcp -m conntrack --ctstate NEW --ctorigdstport " ++ decimal p

unfoldable pub target_text : Target → Line
target_text return = codes " -j RETURN"
target_text drop = codes " -j DROP"
target_text (jump chain) = codes " -j " ++ chain

-- A rule as `iptables -S` prints it, which is how the agent spells it.
unfoldable pub rule_line : Line → Rule → Line
unfolding match_text target_text
rule_line chain (m, t) = codes "-A " ++ chain ++ match_text m ++ target_text t

unfoldable pub user_lines : List (List Line) → List Line
unfolding join_words
user_lines rules = map (λ r. codes "-A " ++ rules_chain_name ++ codes " " ++ join_words r) rules

-- What syncChains wants in the four chains, in the order of ourChains.
unfoldable pub wanted_chains : (Line → Option Net) → Bool → Desired → List (List Line)
unfolding rule_line user_lines desired_rules ports_rules egress_rules
wanted_chains parse_net ipset s =
    map (rule_line chain_name) (desired_rules parse_net ipset s)
    ∷ user_lines s.user_rules
    ∷ map (rule_line ports_chain_name) (ports_rules s.closed_ports)
    ∷ map (rule_line egress_chain_name) (egress_rules ipset s.egress)
    ∷ []
