-- ===== src/Firewall/Respected.antt =====
-- internal/firewall/rules.go and cmd/infrafence-agent/main.go: a sync does not undo what others change
-- while it is under way.
use infrafence_agent.Base.{
  ℕ, ◌+◌, ◌≤◌, ◌<◌, Bool, true, false, not, ◌&&◌, List, [], ◌∷◌, ◌==◌, ==_iff, length, ◌≡◌, refl,
  subst, arith, All, inl, inr, Bool-cases,
}
use infrafence_agent.Base.Dict.{lookup}
use infrafence_agent.Base.Keys.{nat_key}
use infrafence_agent.Firewall.ById.{RuleSpec, Rules, rule_removed_since, reconcile_rules}
use infrafence_agent.Firewall.Consistent.{IsConsistent, count_limit}
use infrafence_agent.Firewall.Sync.{DashboardRule, is_applicable}
use infrafence_agent.Firewall.Changes.{
  Change, applied, change, change_all, NoLater, Last, untouched, put, gone, then_last, last_of,
  Tracks, reconciled-Tracks,
}
use infrafence_agent.Firewall.Survivors.{change-Kept, change-Tracks, change_all-Tracks}
use infrafence_agent.Firewall.Interleaved.{
  Round, sync_apply, sync_round, sync_rounds, sync_interleaved,
}
use infrafence_agent.Firewall.Follows.{
  last_other, Unraced, Lists, count_changes, Respects, Follows, last_of-Follows, last_of-not_gone,
  own-Follows, Follows-not_gone,
}

module _ (listed : RuleSpec → Type 0) (id : ℕ) where
  -- What holds along the sync: `n` more changes keep the count of changes within its 64 bits.
  record Held (gen n : ℕ) (s : Rules) (l l' : Last) : Type 0 where
    consistent : IsConsistent s
    since : gen ≤ s.gen
    room : s.gen + n < count_limit
    tracks : Tracks gen id s l'
    follows : Follows listed l l'

  roomy : (gen m k : ℕ) (s : Rules) (l l' : Last) → Held gen m s l l' → k ≤ m → Held gen k s l l'
  roomy gen m k s l l' h le = record {
    consistent = h.consistent;
    since = h.since;
    room = omega (arith, h.room, le);
    tracks = h.tracks;
    follows = h.follows;
  }

  changes-Held :
      (gen n : ℕ) (cs : List Change) (s : Rules) (l l' : Last)
      → All (NoLater gen) cs
      → Held gen (length cs + n) s l l'
      → Held gen n (change_all cs s) (last_of id l cs) (last_of id l' cs)
  changes-Held gen n cs s l l' le h =
      let (k, t) =
        change_all-Tracks gen id cs s l' h.consistent h.since (omega (arith, h.room)) le h.tracks in
      record {
        consistent = k.consistent;
        since = omega (arith, h.since, k.grows);
        room = omega (arith, h.room, k.count);
        tracks = t;
        follows = last_of-Follows listed id cs l l' h.follows;
      }

  -- The call of ApplyRuleID, where the check let it through.
  apply-Held :
      (b : Bool) (gen n : ℕ) (r : DashboardRule) (s : Rules) (l l' : Last)
      → (r.id ≡ id → listed r.spec)
      → (b ≡ true → (r.id == id) ≡ true → l ≡ gone → ⊥)
      → Held gen (1 + n) s l l'
      → (l2 : Last) × Held gen n (sync_apply b r s).0 l l2
  unfolding sync_apply change
  apply-Held false gen n r s l l' li ok h = (
    l',
    record {
      consistent = h.consistent;
      since = h.since;
      room = omega (arith, h.room);
      tracks = h.tracks;
      follows = h.follows;
    },
  )
  apply-Held true gen n r s l l' li ok h =
      let c = applied r.id r.spec in
      let lt : s.gen + 1 < count_limit = omega (arith, h.room) in
      let k = change-Kept gen c s h.consistent lt in
      let t = change-Tracks gen id c s l' h.consistent h.since lt tt h.tracks in
      (
        then_last id l' c,
        record {
          consistent = k.consistent;
          since = omega (arith, h.since, k.grows);
          room = omega (arith, h.room, k.count);
          tracks = t;
          follows = elim (Bool-cases (r.id == id)) [
            | inl e ↦ rw e (own-Follows listed id l r.spec (ok refl e) (li ((==_iff r.id id).0 e)))
            | inr e ↦ rw e h.follows
          ];
        },
      )

  Tracks-not_gone :
      (gen : ℕ) (s : Rules) (l : Last)
      → Tracks gen id s l
      → rule_removed_since id gen s ≡ false
      → l ≡ gone
      → ⊥
  Tracks-not_gone gen s untouched h f e = cc e
  Tracks-not_gone gen s (put spec) h f e = cc e
  Tracks-not_gone gen s gone h f e = cc (h.1, f)

  round-Held :
      (gen n : ℕ) (r : Round) (s : Rules) (l l' : Last)
      → All (NoLater gen) r.before
      → All (NoLater gen) r.window
      → Unraced id r
      → (r.rule.id ≡ id → listed r.rule.spec)
      → Held gen (length r.before + (length r.window + (1 + n))) s l l'
      → (l2 : Last) × Held gen n
          (sync_round gen r s).0
          (last_of id (last_of id l r.before) r.window)
          l2
  unfolding sync_round
  round-Held gen n r s l l' nb nw un ok h =
      let s1 = change_all r.before s in
      let l1 = last_of id l r.before in
      let l1' = last_of id l' r.before in
      let h1 = changes-Held gen (length r.window + (1 + n)) r.before s l l' nb h in
      let h2 = changes-Held gen (1 + n) r.window s1 l1 l1' nw h1 in
      apply-Held (is_applicable r.rule && not (rule_removed_since r.rule.id gen s1)) gen n r.rule
        (change_all r.window s1) (last_of id l1 r.window) (last_of id l1' r.window) ok
        (λ b e. last_of-not_gone listed id r.window l1 (un e) (
          Follows-not_gone listed id l1 l1' h1.follows (
            Tracks-not_gone gen s1 l1' h1.tracks (
              subst (λ j. rule_removed_since j gen s1 ≡ false) ((==_iff r.rule.id id).0 e)
                (let_through (is_applicable r.rule) (rule_removed_since r.rule.id gen s1) b)))))
        h2
    where
      let_through : (x y : Bool) → (x && not y) ≡ true → y ≡ false
      let_through x y b = ground (arith, b)

  rounds-Held :
      (gen n : ℕ) (rs : List Round) (s : Rules) (l l' : Last)
      → All (λ r. All (NoLater gen) r.before) rs
      → All (λ r. All (NoLater gen) r.window) rs
      → All (Unraced id) rs
      → ((spec : RuleSpec) → Lists id rs spec → listed spec)
      → Held gen (count_changes rs + n) s l l'
      → (l2 : Last) × Held gen n (sync_rounds gen rs s).0 (last_other id l rs) l2
  unfolding sync_rounds
  rounds-Held gen n [] s l l' nb nw un ok h = (l', roomy gen _ n s l l' h (omega arith))
  rounds-Held gen n (r ∷ rs) s l l' nb nw un ok h =
      let more = count_changes rs + n in
      let (l2, h2) =
        round-Held gen more r s l l' nb.0 nw.0 un.0 (λ e. ok r.rule.spec (inl (e, refl)))
          (roomy gen _ _ s l l' h (omega arith)) in
      rounds-Held gen n rs (sync_round gen r s).0 (last_of id (last_of id l r.before) r.window) l2
        nb.1 nw.1 un.1 (λ spec q. ok spec (inr q)) h2

  Tracks-Respects :
      (gen : ℕ) (s : Rules) (l l' : Last)
      → Tracks gen id s l'
      → Follows listed l l'
      → Respects listed l (lookup id s.args)
  Tracks-Respects gen s untouched l' t f = tt
  Tracks-Respects gen s (put spec) l' t (own, e, why) = (own, (subst (Tracks gen id s) e t).0, why)
  Tracks-Respects gen s gone l' t e = (subst (Tracks gen id s) e t).0

-- A sync of at least one rule does not undo a change by ID that another makes after its request, before
-- or during the loop over its answer: of an ID whose last such change is a removal no rule is in force
-- after the sync, and of one whose last change is to apply a rule, that rule is, or one that the sync
-- lists for the ID. Excepted is a removal that falls between the call of RuleRemovedSince and the one of
-- ApplyRuleID for a rule of the same ID; other syncs reconciled in between were asked for no later. The
-- state at the request is consistent, and the changes are counted within 64 bits.
pub sync_interleaved-Respects :
    (id : ℕ) (s : Rules) (r : Round) (rs : List Round) (after : List Change)
    → IsConsistent s
    → All (λ r. All (NoLater s.gen) r.before) (r ∷ rs)
    → All (λ r. All (NoLater s.gen) r.window) (r ∷ rs)
    → All (NoLater s.gen) after
    → All (Unraced id) (r ∷ rs)
    → s.gen + (count_changes (r ∷ rs) + length after) < count_limit
    → Respects
        (Lists id (r ∷ rs))
        (last_of id (last_other id untouched (r ∷ rs)) after)
        (lookup id (sync_interleaved s.gen (r ∷ rs) after s).args)
unfolding sync_interleaved
sync_interleaved-Respects id s r rs after i nb nw na un lt =
    let listed = Lists id (r ∷ rs) in
    let (l2, h) =
      rounds-Held listed id s.gen (length after) (r ∷ rs) s untouched untouched nb nw un
        (λ spec q. q)
        (record { consistent = i; since = omega arith; room = lt; tracks = tt; follows = tt }) in
    let s' = (sync_rounds s.gen (r ∷ rs) s).0 in
    let l = last_other id untouched (r ∷ rs) in
    let h2 =
      changes-Held listed id s.gen 0 after s' l l2 na
        (roomy listed id s.gen _ _ s' l l2 h (omega arith)) in
    Tracks-Respects listed id s.gen
      (reconcile_rules s.gen (sync_rounds s.gen (r ∷ rs) s).1 (change_all after s')).0
      (last_of id l after) (last_of id l2 after)
      (reconciled-Tracks s.gen id s.gen (sync_rounds s.gen (r ∷ rs) s).1 (change_all after s')
        (last_of id l2 after) h2.consistent (omega arith) h2.tracks)
      h2.follows
