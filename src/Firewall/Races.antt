-- ===== src/Firewall/Races.antt =====
-- internal/firewall/rules.go and cmd/infrafence-agent/main.go: syncs with changes that come in between.
use infrafence_agent.Base.{ℕ, none, some, [], ◌∷◌, ◌≡◌, refl, arith}
use infrafence_agent.Base.Dict.{lookup, insert, delete, retain}
use infrafence_agent.Base.Keys.{nat_key}
use infrafence_agent.Base.Text.{codes}
use infrafence_agent.Firewall.Lines.{Line}
use infrafence_agent.Firewall.ById.{RuleSpec, build_rule_args, no_rules, reconcile_rules}
use infrafence_agent.Firewall.Consistent.{IsConsistent}
use infrafence_agent.Firewall.Sync.{DashboardRule}
use infrafence_agent.Firewall.Changes.{applied, removed, change_all, untouched, last_of}
use infrafence_agent.Firewall.Interleaved.{
  Round, sync_interleaved, sync_rounds, sync_round, sync_apply,
}
use infrafence_agent.Firewall.Follows.{last_other, Lists, Respects}
use infrafence_agent.Firewall.Respected.{sync_interleaved-Respects}

abbrev spec : Line → RuleSpec
spec a = record {
  kind = codes "block";
  protocol = codes "all";
  ip_address = some a;
  ip_range = none;
  port = none;
}

abbrev rule : ℕ → Line → DashboardRule
rule n a = record { id = n; country = []; status = codes "synced"; spec = spec a }

no_rules-IsConsistent : IsConsistent no_rules
unfolding lookup
no_rules-IsConsistent = record {
  args_distinct = tt;
  touched_distinct = tt;
  removed_distinct = tt;
  unique = tt;
  covered = λ id a h. cc;
  old = λ id g h. cc;
}

-- Rule 4, which the sync lists, is removed before its turn, and rule 6 is applied in its window.
abbrev busy : Round
busy = record {
  rule = rule 4 (codes "4.4.4.4");
  before = removed 4 ∷ [];
  window = applied 6 (spec (codes "6.6.6.6")) ∷ [];
}

abbrev quiet : Round
quiet = record { rule = rule 5 (codes "5.5.5.5"); before = []; window = [] }

busy_test :
    let s = sync_interleaved 0 (busy ∷ quiet ∷ []) [] no_rules in
    (lookup 4 s.args ≡ none)
    × (lookup 5 s.args ≡ some (build_rule_args (spec (codes "5.5.5.5"))))
    × (lookup 6 s.args ≡ some (build_rule_args (spec (codes "6.6.6.6"))))
unfolding sync_interleaved sync_rounds sync_round sync_apply change_all reconcile_rules lookup
    insert delete retain build_rule_args
busy_test = (refl, refl, refl)

-- A removal in the window of the rule itself is undone: the rule is in force after the sync.
race_test :
    lookup 4
      (sync_interleaved 0
        (record { rule = rule 4 (codes "4.4.4.4"); before = []; window = removed 4 ∷ [] } ∷ [])
        []
        no_rules).args
    ≡ some (build_rule_args (spec (codes "4.4.4.4")))
unfolding sync_interleaved sync_rounds sync_round sync_apply change_all reconcile_rules lookup
    insert delete retain build_rule_args
race_test = refl

sync_interleaved-Respects_example :
    Respects
      (Lists 4 (busy ∷ quiet ∷ []))
      (last_of 4 (last_other 4 untouched (busy ∷ quiet ∷ [])) [])
      (lookup 4 (sync_interleaved 0 (busy ∷ quiet ∷ []) [] no_rules).args)
sync_interleaved-Respects_example =
    sync_interleaved-Respects 4 no_rules busy (quiet ∷ []) [] no_rules-IsConsistent
      ((tt, tt), (tt, tt)) ((tt, tt), (tt, tt)) tt (λ e. (tt, tt), (λ e. tt, tt)) (omega arith)
