-- ===== src/Guard/History.antt =====
-- cmd/infrafence-agent/fwguard.go: what the guard sends and keeps over any history of ticks.
use infrafence_agent.Base.{ℕ, ◌+◌, ◌≤◌, ◌<◌, List, [], ◌∷◌, ◌++◌, ◌≡◌, ◌⊎◌, arith}
use infrafence_agent.Base.Time.{Time, Duration}
pub use infrafence_agent.Base.Time.{Spaced}
use infrafence_agent.Guard.State.{Guard, guard_event_every, guard_conflict, start}
use infrafence_agent.Guard.Tick.{Answers, tick}
use infrafence_agent.Guard.Events.{restored_times, conflict_times, reported, restores, tick_lem}

-- The guard after some ticks, the times of the events of each kind, the latest first, and how many
-- repairs were reported and made.
pub record Trace : Type 0 where
  pub guard : Guard
  pub restored : List Time
  pub conflicts : List Time
  pub reports : ℕ
  pub repairs_made : ℕ

-- The ticks, the latest first, of a guard started at a time.
unfoldable pub trace : Time → List Answers → Trace
trace at [] = record {
  guard = start at;
  restored = [];
  conflicts = [];
  reports = 0;
  repairs_made = 0;
}
trace at (a ∷ ticks) =
    let t = trace at ticks in
    let (g, ensured, events) = tick t.guard a in
    record {
      guard = g;
      restored = restored_times a.now events ++ t.restored;
      conflicts = conflict_times a.now events ++ t.conflicts;
      reports = t.reports + reported events;
      repairs_made = t.repairs_made + restores ensured a.outcome;
    }

abbrev pub AllPositive : List Answers → Type 0
AllPositive [] = Unit
AllPositive (a ∷ ticks) = (0 < a.now) × AllPositive ticks

-- The latest of the times is the one that is kept, or there is none.
abbrev Latest : List Time → Time → Type 0
Latest [] last = last ≡ 0
Latest (t ∷ ts) last = (last ≡ t) × (0 < t)

record Limits (t : Trace) : Type 0 where
  spaced : Spaced guard_event_every t.restored
  latest : Latest t.restored t.guard.last_event
  spaced_conflicts : Spaced guard_conflict t.conflicts
  latest_conflict : Latest t.conflicts t.guard.last_conflict
  counted : t.reports + t.guard.pending_n ≡ t.repairs_made

extend :
    (d : Duration) (now last last' : Time) (times ts : List Time)
    → 0 < now
    → ((times ≡ []) × (last' ≡ last))
      ⊎ ((times ≡ now ∷ []) × (last' ≡ now) × ((last ≡ 0) ⊎ (last + d ≤ now)))
    → Spaced d ts
    → Latest ts last
    → Spaced d (times ++ ts) × Latest (times ++ ts) last'
extend d now last last' times [] p h s l = ground arith
extend d now last last' times (t ∷ ts) p h s l = ground arith

trace-Limits : (at : Time) (ticks : List Answers) → AllPositive ticks → Limits (trace at ticks)
unfolding trace start
trace-Limits at [] p = ground arith
trace-Limits at (a ∷ ticks) p =
    let t = trace at ticks in
    let l = trace-Limits at ticks p.1 in
    let (events, conflicts, count) = tick_lem t.guard a p.0 in
    let e = extend guard_event_every a.now _ _ _ t.restored p.0 events l.spaced l.latest in
    let c =
      extend guard_conflict a.now _ _ _ t.conflicts p.0 conflicts l.spaced_conflicts
        l.latest_conflict in
    record {
      spaced = e.0;
      latest = e.1;
      spaced_conflicts = c.0;
      latest_conflict = c.1;
      counted = omega (arith, l.counted, count);
    }

-- Over any history of ticks the `firewall_rules_restored` events lie a minute apart at least, the
-- `firewall_conflict` events an hour, and the repairs reported and those still to be reported are
-- the repairs made: none is lost, and none reported twice.
pub trace_limits :
    (at : Time) (ticks : List Answers)
    → AllPositive ticks
    → let t = trace at ticks in
      Spaced guard_event_every t.restored
      × Spaced guard_conflict t.conflicts
      × (t.reports + t.guard.pending_n ≡ t.repairs_made)
trace_limits at ticks p =
    let l = trace-Limits at ticks p in (l.spaced, l.spaced_conflicts, l.counted)
