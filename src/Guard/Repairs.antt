-- ===== src/Guard/Repairs.antt =====
-- cmd/infrafence-agent/fwguard.go: a repair is never put off for long.
use infrafence_agent.Base.{ℕ, ◌+◌, ◌*◌, ◌≤◌, Bool, true, false, List, ◌≡◌, arith}
use infrafence_agent.Base.Time.{Time, minute}
use infrafence_agent.Guard.State.{Guard, wait_for_csf, flush_events}
use infrafence_agent.Guard.Tick.{
  Answers, Due, follow_up, full, clear_due, repair, run_due, calm, tick,
}
use infrafence_agent.Guard.History.{trace}
use infrafence_agent.Guard.Ready.{Ticking, last_ensure, trace-Ready, after_ensure_ensures}

csf_free :
    (g : Guard) (now : Time) (pid : ℕ) (held : Bool)
    → held ≡ false
    → (wait_for_csf g now pid held).1 ≡ false
unfolding wait_for_csf
csf_free g now pid held h = ground arith

repair_ensures :
    (g : Guard) (due : Due) (a : Answers)
    → g.retry_at ≤ a.now
    → a.csf_held ≡ false
    → (repair g due a).1 ≡ true
unfolding repair
repair_ensures g due a h c =
    let g1 = (wait_for_csf g a.now a.csf_pid a.csf_held).0 in
    ground (
      arith,
      csf_free g a.now a.csf_pid a.csf_held c,
      after_ensure_ensures (clear_due g1 due a.now) due a.now a.outcome,
    )

run_due_ensures :
    (g : Guard) (a : Answers)
    → g.next_full ≤ a.now
    → g.retry_at ≤ a.now
    → a.csf_held ≡ false
    → (run_due g a).1 ≡ true
unfolding run_due
run_due_ensures g a f r c =
    ground (arith, repair_ensures g follow_up a r c, repair_ensures g full a r c)

calm_sooner :
    (g : Guard) (now : Time)
    → let g' = calm (flush_events g now).0 now in
      (g'.next_full ≤ g.next_full) × (g'.retry_at ≤ g.retry_at)
unfolding calm flush_events
calm_sooner g now = ground arith

tick_ensures :
    (g : Guard) (a : Answers)
    → g.next_full ≤ a.now
    → g.retry_at ≤ a.now
    → a.csf_held ≡ false
    → (tick g a).1 ≡ true
unfolding tick
tick_ensures g a f r c =
    let h = (flush_events g a.now).0 in
    let (p, q) = calm_sooner g a.now in
    run_due_ensures (calm h a.now) a (omega (arith, p, f)) (omega (arith, q, r)) c

-- Whatever the ticks found, if the clock does not run backwards a repair is tried within two
-- minutes: a tick that comes two minutes or more after `ensure` was called last, or after the guard
-- started, calls `ensure` unless csf holds its restart lock. One minute is the time to the next full
-- check, the other the longest back-off that an error of a quick check just before it starts.
pub ensures_every_two_minutes :
    (at : Time) (ticks : List Answers) (a : Answers)
    → Ticking at ticks a.now
    → last_ensure at ticks + 2 * minute ≤ a.now
    → a.csf_held ≡ false
    → (tick (trace at ticks).guard a).1 ≡ true
ensures_every_two_minutes at ticks a h late free =
    let r = trace-Ready at ticks a.now h in
    tick_ensures (trace at ticks).guard a (omega (arith, r.full_soon, late))
      (omega (arith, r.retry_soon, late)) free
