-- ===== src/Backoff/Gate.antt =====
-- internal/backoff/gate.go: the gate on which every component that talks to the dashboard waits. Each
-- method holds the lock, so it is one step; the clock and the random source are its arguments, and
-- what it logs or calls back is in the list that it returns.
use infrafence_agent.Base.{
  ℕ, ◌+◌, ◌-◌, ◌/◌, Bool, true, false, not, ◌&&◌, ◌||◌, List, [], ◌∷◌, ◌++◌, ltb, ◌==◌,
  if◌then◌else◌,
}
use infrafence_agent.Base.Int.{ℤ, pos}
use infrafence_agent.Base.Time.{Time, Duration, is_zero, before, sub, sub_gt}
use infrafence_agent.Backoff.Reply.{Body, refusal, is_suspended, dashboard_body}
use infrafence_agent.Backoff.Delay.{suspended_wait, clock_gap, part, delay}

pub record Gate : Type 0 where
  pub failures : ℕ
  pub until : Time
  pub code : ℕ
  pub suspended : Bool
  pub since : Time
  pub last : Time
  pub unreachable : Time
  pub idle : Bool
  pub on_accepted : Bool  -- a function is set
  pub on_change : Bool  -- a function is set

-- What a method does besides changing the gate.
pub data Notice : Type 0 where
  clock_changed accepted : Notice
  log_suspended : Notice
  log_token_refused : Duration → Notice
  log_agent_refused : Duration → Notice
  log_accepted_again : ℕ → Notice

-- `New`.
unfoldable pub new : Gate
new = record {
  failures = 0;
  until = 0;
  code = 0;
  suspended = false;
  since = 0;
  last = 0;
  unreachable = 0;
  idle = false;
  on_accepted = false;
  on_change = false;
}

-- `RestoreClock`.
unfoldable pub restore_clock : Gate → Time → Time → Time → Gate
restore_clock g since last now =
    if is_zero since || is_zero last || sub_gt now last clock_gap
    then g
    else record g { since = since; last = last }

-- `SetIdle`.
unfoldable pub set_idle : Gate → Bool → Gate
set_idle g on = record g { idle = on }

-- `clearClock`.
unfoldable pub clear_clock : Gate → Gate × Bool
clear_clock g =
    if is_zero g.since && is_zero g.last
    then (g, false)
    else (record g { since = 0; last = 0 }, true)

abbrev changed_notice : Bool → Gate → List Notice
changed_notice notify g = if notify && g.on_change then clock_changed ∷ [] else []

-- `Unreachable`.
unfoldable pub unreachable_at : Gate → Time → Gate × List Notice
unfolding clear_clock
unreachable_at g now =
    let (g', notify) = clear_clock (record g { unreachable = now }) in
    (g', changed_notice notify g')

-- `RefusedFor`.
unfoldable pub refused_for : Gate → Duration → Time → ℤ
refused_for g fresh now =
    if is_zero g.since
      || is_zero g.last
      || sub_gt now g.last fresh
      || not (before g.unreachable g.last)
    then pos 0
    else sub now g.since

-- `Wait`.
unfoldable pub wait : Gate → Time → Duration
wait g now = if g.failures == 0 then 0 else g.until - now

-- The clock and the random source as `Refused` reads them, in order.
pub record Readings : Type 0 where
  pub at_entry : Time
  pub at_check : Time
  pub at_end : Time
  pub rand : ℕ
  pub rand_suspended : ℕ

same_flag : Bool → Bool → Bool
same_flag true b = b
same_flag false b = not b

-- The part of `Refused` that keeps the refusal clock.
unfoldable pub stamp : Gate → Body → Time → Gate × Bool
stamp g body now =
    if dashboard_body body
    then (let since = if not (is_zero g.since) && sub_gt now g.last clock_gap then 0 else g.since in
        (record g { since = if is_zero since then now else since; last = now }, is_zero since))
    else (g, false)

-- A refusal of a round whose first one has set the wait: the gate stays as it is.
unfoldable pub same_round : Gate → ℕ → Bool → Time → Bool
unfolding same_flag
same_round g status suspended now =
    ltb 0 g.failures && before now g.until && same_flag suspended g.suspended && status == g.code

choose_wait : Gate → Bool → Readings → Duration
choose_wait g suspended t =
    if suspended || g.idle
    then suspended_wait - part t.rand_suspended suspended_wait / 10
    else delay g.failures t.rand

refusal_log : ℕ → Bool → Duration → Notice
refusal_log status suspended w =
    if suspended
    then log_suspended
    else if status == 401
    then log_token_refused w
    else log_agent_refused w

-- The part of `Refused` that extends the backoff.
unfoldable pub extend : Gate → ℕ → Bool → Readings → Gate × Duration × List Notice
unfolding choose_wait refusal_log same_flag
extend g status suspended t =
    let changed =
      g.failures == 0 || not (same_flag suspended g.suspended) || not (status == g.code) in
    let g1 = record g { failures = g.failures + 1; code = status; suspended = suspended } in
    let w = choose_wait g1 suspended t in
    (
      record g1 { until = t.at_end + w },
      w,
      if changed then refusal_log status suspended w ∷ [] else [],
    )

-- `Refused`.
unfoldable pub refused : Gate → ℕ → Body → Readings → Gate × Duration × List Notice
refused g status body t =
    if not (refusal status)
    then (g, 0, [])
    else (let suspended = is_suspended status body in
        let (g1, notify) = stamp g body t.at_entry in
        let (g2, w, logs) = extend g1 status suspended t in
        if same_round g1 status suspended t.at_check
        then (g1, g1.until - t.at_check, changed_notice notify g1)
        else (g2, w, logs ++ changed_notice notify g2))

-- `OK`.
unfoldable pub ok : Gate → Gate × Bool × List Notice
unfolding clear_clock
ok g =
    let (g1, notify) = clear_clock g in
    let called = if notify && g1.on_accepted then accepted ∷ [] else [] in
    if g1.failures == 0 then (g1, false, called ++ changed_notice notify g1) else (
      record g1 { failures = 0; code = 0; suspended = false; until = 0 },
      true,
      log_accepted_again g1.failures ∷ called ++ changed_notice notify g1,
    )

-- `OnAccepted` and `OnClockChange` with a function.
unfoldable pub set_on_accepted : Gate → Gate
set_on_accepted g = record g { on_accepted = true }

unfoldable pub set_on_change : Gate → Gate
set_on_change g = record g { on_change = true }
