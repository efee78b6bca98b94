-- ===== src/Backoff/History.antt =====
-- internal/backoff/gate.go: the gate over any history of calls.
use infrafence_agent.Base.{ℕ, ◌+◌, ◌≤◌, ◌<◌, Bool, List, [], ◌∷◌, arith}
use infrafence_agent.Base.Time.{Time}
use infrafence_agent.Backoff.Reply.{Body, is_suspended}
use infrafence_agent.Backoff.Delay.{max_wait, rand_range}
use infrafence_agent.Backoff.Gate.{
  Gate, Readings, new, restore_clock, stamp, refused, ok, unreachable_at, set_idle, wait,
}
use infrafence_agent.Backoff.Rounds.{stamp_keeps, extend_bounds}

-- One call of a method. A clock that is restored has the two times that were saved before a restart.
pub data Call : Type 0 where
  refuses : ℕ → Body → Readings → Call
  accepts : Call
  fails : Time → Call
  idles : Bool → Call
  restores : Time → Time → Time → Call

unfoldable pub step : Gate → Call → Gate
step g (refuses status body t) = (refused g status body t).0
step g accepts = (ok g).0
step g (fails now) = (unreachable_at g now).0
step g (idles on) = set_idle g on
step g (restores since last now) = restore_clock g since last now

-- The calls, the latest first.
unfoldable pub run : List Call → Gate
run [] = new
run (c ∷ cs) = step (run cs) c

-- The clock does not run backwards: each call reads it at or after the one before, and the last
-- reading is at most `now`; what is restored was saved in the past. Times are past the zero time, and random numbers in their range.
abbrev pub Timed : List Call → Time → Type 0
Timed [] now = 0 < now
Timed (refuses status body t ∷ cs) now =
    Timed cs t.at_entry
    × (t.at_entry ≤ t.at_check)
    × (t.at_check ≤ t.at_end)
    × (t.at_end ≤ now)
    × (t.rand < rand_range)
    × (t.rand_suspended < rand_range)
Timed (accepts ∷ cs) now = Timed cs now
Timed (fails t ∷ cs) now = Timed cs t × (t ≤ now)
Timed (idles on ∷ cs) now = Timed cs now
Timed (restores since last t ∷ cs) now = Timed cs t × (since ≤ last) × (last ≤ t) × (t ≤ now)

refused_until :
    (g : Gate) (status : ℕ) (body : Body) (t : Readings)
    → t.rand < rand_range
    → t.rand_suspended < rand_range
    → g.until ≤ t.at_end + max_wait
    → (refused g status body t).0.until ≤ t.at_end + max_wait
unfolding refused
refused_until g status body t h k u = ground (
  arith,
  stamp_keeps g body t.at_entry,
  extend_bounds (stamp g body t.at_entry).0 status (is_suspended status body) t h k,
)

run_until : (cs : List Call) (now : Time) → Timed cs now → (run cs).until ≤ now + max_wait
unfolding run step new ok set_idle unreachable_at restore_clock
run_until [] now h = omega arith
run_until (refuses status body t ∷ cs) now h = omega (
  arith,
  refused_until (run cs) status body t h.4 h.5 (omega (arith, run_until cs t.at_entry h.0)),
)
run_until (accepts ∷ cs) now h = ground (arith, run_until cs now h)
run_until (fails t ∷ cs) now h = ground (arith, run_until cs t h.0)
run_until (idles on ∷ cs) now h = run_until cs now h
run_until (restores since last t ∷ cs) now h = ground (arith, run_until cs t h.0)

-- After any history of calls whose clock does not run backwards, no request waits for more than thirty
-- minutes.
pub wait-le-max_wait : (cs : List Call) (now : Time) → Timed cs now → wait (run cs) now ≤ max_wait
unfolding wait
wait-le-max_wait cs now h = ground (arith, run_until cs now h)
