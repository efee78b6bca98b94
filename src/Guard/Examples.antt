-- ===== src/Guard/Examples.antt =====
-- cmd/infrafence-agent/fwguard.go: tests of the guard, and its theorems at concrete inputs.
use infrafence_agent.Base.{◌+◌, ◌*◌, ◌≡◌, refl, true, false, List, [], ◌∷◌, arith}
use infrafence_agent.Base.Time.{Time, second, hour}
use infrafence_agent.Guard.State.{
  guard_event_every, guard_conflict, start, trouble, wait_for_csf, flush_events, note_repair,
  record_repair, add_all, last_is_old, raise_conflict,
}
use infrafence_agent.Guard.Tick.{
  Answers, missing, done, tick, run_due, calm, quick_check, repair, clear_due, after_ensure,
  after_repair, repaired,
}
use infrafence_agent.Guard.History.{trace, Spaced, trace_limits}
use infrafence_agent.Guard.Ready.{last_ensure}
use infrafence_agent.Guard.Repairs.{ensures_every_two_minutes}

abbrev t0 : Time
t0 = 1000 * hour

-- A quick check at a time that finds the jump gone, and the repair of it.
abbrev flushed : Time → Answers
flushed t = record {
  now = t;
  after_check = t;
  check = missing;
  csf_pid = 0;
  csf_held = false;
  outcome = done false ("INPUT jump" ∷ []);
}

-- Two rewrites of the firewall, six seconds apart.
abbrev rewrites : List Answers
rewrites = flushed (t0 + 13 * second) ∷ flushed (t0 + 7 * second) ∷ flushed (t0 + 5 * second) ∷ []

-- The first is reported at once; the repairs after it wait for the minute to pass.
rewrites_traced :
    let t = trace t0 rewrites in
    (t.restored ≡ (t0 + 5 * second) ∷ [])
    × (t.conflicts ≡ (t0 + 13 * second) ∷ [])
    × (t.guard.pending_n ≡ 2)
    × (t.guard.backoff ≡ 5 * second)
unfolding trace start tick run_due calm quick_check repair clear_due after_ensure after_repair
    repaired wait_for_csf trouble flush_events note_repair record_repair add_all last_is_old
    raise_conflict
rewrites_traced = (refl, refl, refl, refl)

trace_limits_example :
    let t = trace t0 rewrites in
    Spaced guard_event_every t.restored
    × Spaced guard_conflict t.conflicts
    × (t.reports + t.guard.pending_n ≡ t.repairs_made)
trace_limits_example = trace_limits t0 rewrites (omega arith)

rewrites-last_ensure : last_ensure t0 rewrites ≡ t0 + 13 * second
unfolding trace start tick run_due calm quick_check repair clear_due after_ensure after_repair
    repaired wait_for_csf trouble flush_events note_repair record_repair add_all last_is_old
    raise_conflict
rewrites-last_ensure = refl

ensures_every_two_minutes_example :
    (tick (trace t0 rewrites).guard (flushed (t0 + 133 * second))).1 ≡ true
ensures_every_two_minutes_example =
    ensures_every_two_minutes t0 rewrites (flushed (t0 + 133 * second)) (omega arith)
      (omega (arith, rewrites-last_ensure)) refl
