-- ===== src/Firewall/Scenarios.antt =====
-- Tests of the wanted chains and of the dashboard's rules, and their theorems at concrete inputs.
use infrafence_agent.Base.{
  ℕ, Bool, true, false, not, ◌&&◌, ◌||◌, Option, none, some, List, [], ◌∷◌, if◌then◌else◌, ◌==◌,
  ltb, ◌≡◌, refl, arith,
}
use infrafence_agent.Base.Dict.{lookup, insert, delete, retain}
use infrafence_agent.Base.Sort.{insert_by}
use infrafence_agent.Base.Keys.{nat_key}
use infrafence_agent.Base.Text.{codes, same, lex_lt}
use infrafence_agent.Firewall.Lines.{Line}
use infrafence_agent.Firewall.Chain.{
  Net, Desired, wanted_chains, allow_set_name, ban_set_name, threat_set_name, allow_entries,
}
use infrafence_agent.Firewall.Packets.{Packet, in_set}
use infrafence_agent.Firewall.Covered.{
  Filled, allowed, banned, in_feed, in_country, closed, unreachable,
}
use infrafence_agent.Firewall.Verdict.{chain_drops, output_drops, chain_drops_lem}
use infrafence_agent.Firewall.ById.{
  RuleSpec, no_rules, build_rule_args, rule_removed_since, zero_or, in_force,
}
use infrafence_agent.Firewall.Consistent.{IsConsistent}
use infrafence_agent.Firewall.Holding.{holds}
use infrafence_agent.Firewall.Sync.{DashboardRule, sync_rules, wanted, args_or}
use infrafence_agent.Firewall.Reconciled.{sync_rules_lem}
use infrafence_agent.Firewall.Changes.{Change, applied, removed, change_all}

-- The texts of three networks: an address that is allowed, one that is banned, and a feed's.
abbrev good : Line
good = codes "1.1.1.1/32"

abbrev bad : Line
bad = codes "2.2.2.2/32"

abbrev feed : Line
feed = codes "3.0.0.0/8"

parse : Line → Option Net
parse t = some (record { text = t; is_v4 = true })

cover : Line → ℕ → Bool
cover t a =
    if same t good
    then a == 1
    else if same t bad
    then a == 2
    else if same t feed
    then a == 3
    else false

abbrev state : Desired
state = record {
  protected = [];
  local = [];
  allow = good ∷ [];
  bans = bad ∷ good ∷ [];
  threat = some (feed ∷ []);
  geo = [];
  user_rules = [];
  closed_ports = 23 ∷ [];
  egress = [];
}

set_of : Line → List Line
set_of s =
    if same s allow_set_name
    then good ∷ []
    else if same s ban_set_name
    then bad ∷ good ∷ []
    else if same s threat_set_name
    then feed ∷ []
    else []

state-Filled : Filled parse cover set_of state
unfolding parse set_of allow_entries in_set cover insert_by
state-Filled = record {
  allow_set = refl;
  ban_set = λ a. refl;
  threat_set = λ nets e. ground (arith, e);
  geo_sets = tt;
  egress_set = λ a. refl;
}

abbrev from : ℕ → Packet
from a = record { src = a; dst = 9; on_loopback = false; opens = false; port = 80 }

drops_test :
    (chain_drops parse cover set_of true state (from 1) ≡ false)
    × (chain_drops parse cover set_of true state (from 2) ≡ true)
    × (chain_drops parse cover set_of true state (from 3) ≡ true)
    × (chain_drops parse cover set_of false state (from 3) ≡ false)
unfolding chain_drops parse cover set_of allow_entries insert_by lex_lt
drops_test = (refl, refl, refl, refl)

chain_drops_lem_example :
    (chain_drops parse cover set_of true state (from 2) ≡ (
      not (allowed parse cover state 2)
      && (closed cover (23 ∷ []) (from 2)
          || (unreachable cover [] 9
              || (banned parse cover state 2
                  || (true && (in_feed cover (some (feed ∷ [])) 2 || in_country cover [] 2)))))))
    × (output_drops parse cover set_of true state (from 2) ≡ unreachable cover [] 9)
chain_drops_lem_example = chain_drops_lem parse cover set_of true state (from 2) (λ t. state-Filled)

wanted_test :
    wanted_chains parse false state
    ≡ (codes "-A INFRAFENCE -s 1.1.1.1/32 -j RETURN"
        ∷ codes "-A INFRAFENCE -j INFRAFENCE-PORTS"
        ∷ codes "-A INFRAFENCE -j INFRAFENCE-EGRESS"
        ∷ codes "-A INFRAFENCE -s 1.1.1.1/32 -j DROP"
        ∷ codes "-A INFRAFENCE -s 2.2.2.2/32 -j DROP"
        ∷ [])
      ∷ []
      ∷ (codes "-A INFRAFENCE-PORTS -i lo -j RETURN"
          ∷ codes "-A INFRAFENCE-PORTS -s 10.0.0.0/8 -j RETURN"
          ∷ codes "-A INFRAFENCE-PORTS -s 100.64.0.0/10 -j RETURN"
          ∷ codes "-A INFRAFENCE-PORTS -s 127.0.0.0/8 -j RETURN"
          ∷ codes "-A INFRAFENCE-PORTS -s 169.254.0.0/16 -j RETURN"
          ∷ codes "-A INFRAFENCE-PORTS -s 172.16.0.0/12 -j RETURN"
          ∷ codes "-A INFRAFENCE-PORTS -s 192.168.0.0/16 -j RETURN"
          ∷ codes "-A INFRAFENCE-PORTS -p tcp -m conntrack --ctstate NEW --ctorigdstport 23 -j DROP"
          ∷ [])
      ∷ []
      ∷ []
unfolding wanted_chains parse allow_entries insert_by lex_lt
wanted_test = refl

abbrev spec : Line → RuleSpec
spec a = record {
  kind = codes "block";
  protocol = codes "all";
  ip_address = some a;
  ip_range = none;
  port = none;
}

build_test : build_rule_args (spec bad) ≡ codes "-s" ∷ bad ∷ codes "-j" ∷ codes "DROP" ∷ []
unfolding build_rule_args
build_test = refl

no_rules-IsConsistent : IsConsistent no_rules
unfolding lookup
no_rules-IsConsistent = record {
  args_distinct = tt;
  touched_distinct = tt;
  removed_distinct = tt;
  unique = tt;
  covered = λ id a h. cc;
  old = λ id g h. cc;
}

abbrev rule : ℕ → Line → DashboardRule
rule n a = record { id = n; country = []; status = codes "synced"; spec = spec a }

sync_rules_lem_example :
    let s = sync_rules 0 (rule 4 bad ∷ rule 5 feed ∷ []) no_rules in
    ((id : ℕ)
      → lookup id s.args
        ≡ args_or (wanted (rule_removed_since id 0 no_rules) id (rule 4 bad ∷ rule 5 feed ∷ [])) (
            if ltb 0 (zero_or (lookup id no_rules.touched)) then lookup id no_rules.args else none))
    × ((a : List Line) → holds s.user_rules a ≡ in_force s.args a)
    × IsConsistent s
sync_rules_lem_example =
    sync_rules_lem 0 (rule 4 bad) (rule 5 feed ∷ []) no_rules no_rules-IsConsistent (omega arith)
      (omega arith)

-- Rule 4 is removed and rule 6 applied while the sync that still lists rule 4 is under way.
abbrev meanwhile : List Change
meanwhile = applied 4 (spec bad) ∷ removed 4 ∷ applied 6 (spec good) ∷ []

sync_test :
    let s = sync_rules 0 (rule 4 bad ∷ rule 5 feed ∷ []) (change_all meanwhile no_rules) in
    (lookup 4 s.args ≡ none)
    × (lookup 5 s.args ≡ some (build_rule_args (spec feed)))
    × (lookup 6 s.args ≡ some (build_rule_args (spec good)))
unfolding sync_rules change_all lookup insert delete retain build_rule_args
sync_test = (refl, refl, refl)
