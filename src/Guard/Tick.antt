-- ===== src/Guard/Tick.antt =====
-- cmd/infrafence-agent/fwguard.go: `tick`, which does whatever is due. What the firewall and the
-- clock answer during a tick is its argument.
use infrafence_agent.Base.{
  ℕ, ◌+◌, ◌-◌, ◌*◌, Bool, true, false, not, ◌&&◌, List, [], ◌∷◌, ◌++◌, ltb, if◌then◌else◌, String,
}
use infrafence_agent.Base.Time.{Time, is_zero, before, sub_ge, sub_lt}
use infrafence_agent.Guard.State.{
  Guard, Event, guard_quick, guard_full, guard_follow_up, guard_back_to_back, guard_quiet, trouble,
  wait_for_csf, flush_events, note_repair,
}

-- The answer of `needsRepair`.
pub data Check : Type 0 where
  check_failed in_place missing : Check

-- The answer of `ensure`: an error, or whether it was the first setup and what it restored.
pub data Outcome : Type 0 where
  failed : Outcome
  done : Bool → List String → Outcome

pub record Answers : Type 0 where
  pub now : Time
  pub after_check : Time
  pub check : Check
  pub csf_pid : ℕ
  pub csf_held : Bool
  pub outcome : Outcome

pub data Due : Type 0 where
  follow_up full quick : Due

-- The guard, whether `ensure` was called, and the events sent.
abbrev pub Ticked : Type 0
Ticked = Guard × Bool × List Event

abbrev is_follow_up : Due → Bool
is_follow_up follow_up = true
is_follow_up _ = false

-- A repair that the quick check found is followed by a second one.
schedule : Guard → Due → Time → Guard
schedule g quick now = record g { follow_up = now + guard_follow_up }
schedule g _ now = g

-- What was due is no longer.
unfoldable pub clear_due : Guard → Due → Time → Guard
clear_due g follow_up now = record g { follow_up = 0 }
clear_due g full now = record g { next_full = now + guard_full }
clear_due g quick now = g

-- The guard after a repair, before it is noted, and whether the repair came right after another.
unfoldable pub repaired : Guard → Due → Time → Guard × Bool
unfolding schedule
repaired g due now =
    let g1 = schedule g due now in
    let back_to_back =
      not (is_follow_up due)
      && not (is_zero g1.last_repair)
      && sub_lt now g1.last_repair guard_back_to_back in
    let g2 = record g1 { last_repair = now } in
    (if back_to_back then trouble g2 now else g2, back_to_back)

-- After the firewall has been repaired.
unfoldable pub after_repair : Guard → Due → Time → List String → Ticked
after_repair g due now what =
    let (g1, back_to_back) = repaired g due now in
    let (g2, events) = note_repair g1 now what back_to_back in (g2, true, events)

unfoldable pub after_ensure : Guard → Due → Time → Outcome → Ticked
after_ensure g due now failed = (trouble g now, true, [])
after_ensure g due now (done true what) = (g, true, [])
after_ensure g due now (done false []) = (g, true, [])
after_ensure g due now (done false (w ∷ ws)) = after_repair g due now (w ∷ ws)

-- A repair that is due: not during the back-off, and not while csf rebuilds the firewall.
unfoldable pub repair : Guard → Due → Answers → Ticked
repair g due a =
    if before a.now g.retry_at
    then (g, false, [])
    else (let (g1, waiting) = wait_for_csf g a.now a.csf_pid a.csf_held in
        if waiting
        then (g1, false, [])
        else after_ensure (clear_due g1 due a.now) due a.now a.outcome)

-- The quick check.
unfoldable pub quick_check : Guard → Answers → Check → Ticked
quick_check g a check_failed =
    let g1 = trouble (record g { next_quick = a.now + guard_quick }) a.now in
    (record g1 { next_quick = g1.retry_at }, false, [])
quick_check g a in_place =
    let cost = 10 * (a.after_check - a.now) in
    (
      record g { next_quick = a.now + (if ltb guard_quick cost then cost else guard_quick) },
      false,
      [],
    )
quick_check g a missing = repair (record g { next_quick = a.now + guard_quick }) quick a

unfoldable pub run_due : Guard → Answers → Ticked
run_due g a =
    if not (is_zero g.follow_up) && not (before a.now g.follow_up)
    then repair g follow_up a
    else if not (before a.now g.next_full)
    then repair g full a
    else if not (before a.now g.next_quick)
    then quick_check g a a.check
    else (g, false, [])

-- The back-off ends after five quiet minutes.
unfoldable pub calm : Guard → Time → Guard
calm g now =
    if ltb 0 g.backoff && sub_ge now g.last_trouble guard_quiet
    then record g { backoff = 0; retry_at = 0 }
    else g

-- `tick`.
unfoldable pub tick : Guard → Answers → Ticked
tick g a =
    let (g1, sent) = flush_events g a.now in
    let (g2, ensured, events) = run_due (calm g1 a.now) a in (g2, ensured, sent ++ events)
