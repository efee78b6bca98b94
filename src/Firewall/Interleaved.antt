-- ===== src/Firewall/Interleaved.antt =====
-- internal/firewall/rules.go and cmd/infrafence-agent/main.go: the loop of a sync over the dashboard's
-- rules, with the changes by ID that come between its calls, each of which holds the lock by itself.
use infrafence_agent.Base.{ℕ, Bool, true, false, not, ◌&&◌, List, [], ◌∷◌, ◌++◌}
use infrafence_agent.Base.Keys.{nat_key}
use infrafence_agent.Firewall.ById.{Rules, apply_rule_id, rule_removed_since, reconcile_rules}
use infrafence_agent.Firewall.Sync.{DashboardRule, is_applicable}
use infrafence_agent.Firewall.Changes.{Change, change_all}

-- A rule of the list, the changes before its turn comes, and those between the call of RuleRemovedSince
-- and the one of ApplyRuleID.
pub record Round : Type 0 where
  pub rule : DashboardRule
  pub before : List Change
  pub window : List Change

unfoldable pub sync_apply : Bool → DashboardRule → Rules → Rules × List ℕ
unfolding apply_rule_id
sync_apply true r s = ((apply_rule_id r.id r.spec s).0, r.id ∷ [])
sync_apply false r s = (s, [])

unfoldable pub sync_round : ℕ → Round → Rules → Rules × List ℕ
unfolding sync_apply change_all rule_removed_since is_applicable
sync_round gen r s =
    let s1 = change_all r.before s in
    sync_apply (is_applicable r.rule && not (rule_removed_since r.rule.id gen s1)) r.rule
      (change_all r.window s1)

unfoldable pub sync_rounds : ℕ → List Round → Rules → Rules × List ℕ
unfolding sync_round
sync_rounds gen [] s = (s, [])
sync_rounds gen (r ∷ rs) s =
    let (s1, one) = sync_round gen r s in let (s2, ids) = sync_rounds gen rs s1 in (s2, one ++ ids)

-- The loop, the changes after it, and ReconcileRules, which is not called where no rule is listed.
unfoldable pub sync_interleaved : ℕ → List Round → List Change → Rules → Rules
unfolding sync_rounds change_all reconcile_rules
sync_interleaved gen [] after s = change_all after s
sync_interleaved gen (r ∷ rs) after s =
    let (s', ids) = sync_rounds gen (r ∷ rs) s in (reconcile_rules gen ids (change_all after s')).0
