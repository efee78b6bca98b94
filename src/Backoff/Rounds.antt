-- ===== src/Backoff/Rounds.antt =====
-- internal/backoff/gate.go: what one call of `Refused`, `OK` and `Unreachable` does to the backoff.
use infrafence_agent.Base.{ℕ, ◌+◌, ◌≤◌, ◌<◌, Bool, true, false, [], ◌≡◌, arith, ◌⊎◌, ltb}
use infrafence_agent.Base.Int.{pos}
use infrafence_agent.Base.Time.{Time, Duration}
use infrafence_agent.Backoff.Reply.{Body, refusal, is_suspended}
use infrafence_agent.Backoff.Delay.{
  min_wait, max_wait, rand_range, part-le, delay_bounds, suspended_wait,
}
use infrafence_agent.Backoff.Gate.{
  Gate, Readings, stamp, extend, same_round, refused, ok, unreachable_at, wait, refused_for,
}

pub stamp_keeps :
    (g : Gate) (body : Body) (now : Time)
    → let g' = (stamp g body now).0 in
      (g'.failures ≡ g.failures)
      × (g'.until ≡ g.until)
      × (g'.code ≡ g.code)
      × (g'.suspended ≡ g.suspended)
      × (g'.unreachable ≡ g.unreachable)
unfolding stamp
stamp_keeps g body now = ground arith

pub extend_bounds :
    (g : Gate) (status : ℕ) (suspended : Bool) (t : Readings)
    → t.rand < rand_range
    → t.rand_suspended < rand_range
    → let (g', w, logs) = extend g status suspended t in
      (g'.failures ≡ g.failures + 1)
      × (g'.until ≡ t.at_end + w)
      × (min_wait ≤ w)
      × (w ≤ max_wait)
      × (g'.since ≡ g.since)
      × (g'.last ≡ g.last)
unfolding extend
extend_bounds g status suspended t h k =
    ground
      (arith, delay_bounds (g.failures + 1) t.rand h, part-le t.rand_suspended suspended_wait k)

same_round-true :
    (g : Gate) (status : ℕ) (suspended : Bool) (now : Time)
    → same_round g status suspended now ≡ true
    → (0 < g.failures) × (now < g.until)
unfolding same_round
same_round-true g status suspended now h = ground arith

-- `Refused` on a 401 or 403: within a round the failures and the end of the wait stay, and the answer
-- is what is left of the wait; otherwise the refusal is counted, and a wait of one to thirty
-- minutes is started and returned. In both cases the next request waits for what was returned.
pub refused_cases :
    (g : Gate) (status : ℕ) (body : Body) (t : Readings)
    → refusal status ≡ true
    → t.rand < rand_range
    → t.rand_suspended < rand_range
    → let (g', w, notices) = refused g status body t in
      ((same_round (stamp g body t.at_entry).0 status (is_suspended status body) t.at_check ≡ true)
        × (g'.failures ≡ g.failures)
        × (g'.until ≡ g.until)
        × (0 < w)
        × (wait g' t.at_check ≡ w))
      ⊎ ((same_round (stamp g body t.at_entry).0 status (is_suspended status body) t.at_check
            ≡ false)
          × (g'.failures ≡ g.failures + 1)
          × (min_wait ≤ w)
          × (w ≤ max_wait)
          × (wait g' t.at_end ≡ w))
unfolding refused wait
refused_cases g status body t r h k =
    let g1 = (stamp g body t.at_entry).0 in
    ground (
      arith,
      stamp_keeps g body t.at_entry,
      extend_bounds g1 status (is_suspended status body) t h k,
      same_round-true g1 status (is_suspended status body) t.at_check,
    )

-- Any other reply leaves the gate alone.
pub refused_ignores :
    (g : Gate) (status : ℕ) (body : Body) (t : Readings)
    → refusal status ≡ false
    → refused g status body t ≡ (g, 0, [])
unfolding refused
refused_ignores g status body t r = rw r

-- An accepted request lets the next ones through at once, stops the refusal clock, and tells whether
-- the agent was being refused until now.
pub ok_lets_through :
    (g : Gate) (fresh : Duration) (now : Time)
    → let (g', was_refused, notices) = ok g in
      (wait g' now ≡ 0)
      × (refused_for g' fresh now ≡ pos 0)
      × (g'.failures ≡ 0)
      × (was_refused ≡ ltb 0 g.failures)
unfolding ok wait refused_for
ok_lets_through g fresh now = ground arith

-- A dashboard that cannot be reached stops the refusal clock, and leaves the backoff as it is.
pub unreachable_no_refusal :
    (g : Gate) (at : Time) (fresh : Duration) (now : Time)
    → let g' = (unreachable_at g at).0 in
      (refused_for g' fresh now ≡ pos 0) × (wait g' now ≡ wait g now) × (g'.failures ≡ g.failures)
unfolding unreachable_at wait refused_for
unreachable_no_refusal g at fresh now = ground arith
