-- ===== src/Backoff/Examples.antt =====
-- internal/backoff/gate.go: tests of the gate, and its theorems at concrete inputs.
use infrafence_agent.Base.{◌+◌, ◌*◌, ◌≤◌, ◌<◌, ◌≡◌, refl, true, false, some, List, [], ◌∷◌, arith}
use infrafence_agent.Base.Int.{pos}
use infrafence_agent.Base.Text.{codes}
use infrafence_agent.Base.Time.{Time, second, minute, hour}
use infrafence_agent.Backoff.Reply.{
  Body, str, obj, field, end, null, refusal, is_suspended, dashboard_body,
}
use infrafence_agent.Backoff.Delay.{max_wait, part, delay}
use infrafence_agent.Backoff.Gate.{
  Readings, new, stamp, same_round, extend, refused, wait, refused_for,
}
use infrafence_agent.Backoff.History.{Call, refuses, step, run, wait-le-max_wait}
use infrafence_agent.Backoff.Streak.{Streak, start, again, refused_for-Streak, Streak-since}

abbrev suspended_body : Body
suspended_body = some (obj (field (codes "Error") (str (codes " Suspended ")) end))

suspended_seen : is_suspended 403 suspended_body ≡ true
unfolding is_suspended
suspended_seen = refl

suspended_needs_403 : is_suspended 401 suspended_body ≡ false
unfolding is_suspended
suspended_needs_403 = refl

null_is_no_dashboard : dashboard_body (some null) ≡ false
unfolding dashboard_body
null_is_no_dashboard = refl

-- All readings at one time, and the random numbers 0.
abbrev at : Time → Readings
at t = record { at_entry = t; at_check = t; at_end = t; rand = 0; rand_suspended = 0 }

abbrev denied_body : Body
denied_body = some (obj (field (codes "message") (str (codes "Unauthenticated.")) end))

abbrev t0 : Time
t0 = 1000 * hour

-- Two refusals of one round: the second does not extend the backoff.
abbrev two_refusals : List Call
two_refusals =
    refuses 401 denied_body (at (t0 + 10 * second)) ∷ refuses 401 denied_body (at t0) ∷ []

two_refusals-wait : wait (run two_refusals) (t0 + 10 * second) ≡ 50 * second
unfolding wait run step new refused refusal stamp dashboard_body same_round is_suspended extend
    delay part
two_refusals-wait = refl

wait-le-max_wait_example : wait (run two_refusals) (t0 + minute) ≤ max_wait
wait-le-max_wait_example = wait-le-max_wait two_refusals (t0 + minute) (omega arith)

two_refusals_for : refused_for (run two_refusals) hour (t0 + minute) ≡ pos minute
unfolding refused_for run step new refused refusal stamp dashboard_body same_round is_suspended
    extend delay part
two_refusals_for = refl

refused_for-Streak_example :
    (first last : Time) × Streak two_refusals first last
    × (first + minute ≡ t0 + minute)
    × (t0 + minute ≤ last + hour)
refused_for-Streak_example =
    refused_for-Streak two_refusals hour (t0 + minute) minute two_refusals_for (omega arith)

Streak-since_example :
    ((run two_refusals).since ≤ t0)
    × ((run two_refusals).last ≡ t0 + 10 * second)
    × (0 < (run two_refusals).since)
unfolding refusal dashboard_body
Streak-since_example = Streak-since {cs = two_refusals} (t0 + minute) (omega arith) (
    again 401 denied_body (at (t0 + 10 * second)) refl (omega arith)
      (start 401 denied_body (at t0) refl))
