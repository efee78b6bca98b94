-- ===== src/Guard/Ready.antt =====
-- cmd/infrafence-agent/fwguard.go: the back-off, and how long it and the full check can put a repair off.
use infrafence_agent.Base.{
  ℕ, ◌+◌, ◌*◌, ◌≤◌, ◌<◌, min, Bool, true, false, List, [], ◌∷◌, ◌≡◌, refl, ◌⊎◌, arith, String, not,
  ◌&&◌, Bool-cases, inl, inr,
}
use infrafence_agent.Base.Time.{Time, is_zero, before}
use infrafence_agent.Guard.State.{
  Guard, guard_quick, guard_full, guard_backoff_min, guard_backoff_max, start, trouble,
  wait_for_csf, note_repair, flush_events, raise_conflict,
}
use infrafence_agent.Guard.Tick.{
  Check, check_failed, in_place, missing, Outcome, failed, done, Answers, Due, Ticked, follow_up,
  full, quick, repaired, clear_due, after_repair, after_ensure, repair, quick_check, run_due, calm,
  tick,
}
use infrafence_agent.Guard.History.{trace}

-- The back-off is off, or between five seconds and a minute. After the last call of `ensure`, at `last`,
-- the next full check is due within a minute, and a back-off ends within two: a quick check whose error
-- starts one comes before the full check is due.
pub record Ready (last : Time) (g : Guard) : Type 0 where
  pub backoff_range :
      (g.backoff ≡ 0) ⊎ ((guard_backoff_min ≤ g.backoff) × (g.backoff ≤ guard_backoff_max))
  pub full_soon : g.next_full ≤ last + guard_full
  pub retry_soon : g.retry_at ≤ last + guard_full + guard_backoff_max

-- When `ensure` was called last, once a tick at `now` has or has not called it.
abbrev pub ensured_at : Time → Time → Bool → Time
ensured_at last now true = now
ensured_at last now false = last

-- The back-off doubles from five seconds up to a minute, and the next repair waits for it.
pub trouble_backs_off :
    (g : Guard) (now : Time)
    → (g.backoff ≡ 0) ⊎ ((guard_backoff_min ≤ g.backoff) × (g.backoff ≤ guard_backoff_max))
    → let g' = trouble g now in
      ((g.backoff ≡ 0) × (g'.backoff ≡ guard_backoff_min)
        ⊎ (0 < g.backoff) × (g'.backoff ≡ min (2 * g.backoff) guard_backoff_max))
      × (g'.retry_at ≡ now + g'.backoff)
unfolding trouble
trouble_backs_off g now r = ground arith

trouble-Ready :
    (g : Guard) (last now : Time) → last ≤ now → Ready last g → Ready now (trouble g now)
unfolding trouble
trouble-Ready g last now h r = ground arith

later : (last now : Time) (g : Guard) → last ≤ now → Ready last g → Ready now g
later last now g h r = ground arith

note_repair-Ready :
    (g : Guard) (last now : Time) (what : List String) (b : Bool)
    → Ready last g
    → Ready last (note_repair g now what b).0
unfolding note_repair flush_events raise_conflict
note_repair-Ready g last now what b r = ground arith

repaired-Ready :
    (g : Guard) (due : Due) (now : Time) → Ready now g → Ready now (repaired g due now).0
unfolding repaired trouble
repaired-Ready g due now r = ground arith

after_ensure-Ready :
    (g : Guard) (due : Due) (now : Time) (o : Outcome)
    → Ready now g
    → Ready now (after_ensure g due now o).0
unfolding after_ensure after_repair
after_ensure-Ready g due now failed r = trouble-Ready g now now (omega arith) r
after_ensure-Ready g due now (done true what) r = r
after_ensure-Ready g due now (done false []) r = r
after_ensure-Ready g due now (done false (w ∷ ws)) r =
    note_repair-Ready (repaired g due now).0 now now (w ∷ ws) (repaired g due now).1
      (repaired-Ready g due now r)

csf-Ready :
    (g : Guard) (last now : Time) (pid : ℕ) (held : Bool)
    → Ready last g
    → Ready last (wait_for_csf g now pid held).0
unfolding wait_for_csf
csf-Ready g last now pid held r = ground arith

clear_due-Ready :
    (g : Guard) (due : Due) (now : Time) → Ready now g → Ready now (clear_due g due now)
unfolding clear_due
clear_due-Ready g due now r = ground arith

-- A result after which the guard is ready, whichever way it went.
abbrev ReadyAfter : Time → Time → Ticked → Type 0
ReadyAfter last now r = Ready (ensured_at last now r.1) r.0

pub after_ensure_ensures :
    (g : Guard) (due : Due) (now : Time) (o : Outcome) → (after_ensure g due now o).1 ≡ true
unfolding after_ensure after_repair
after_ensure_ensures g due now failed = refl
after_ensure_ensures g due now (done true what) = refl
after_ensure_ensures g due now (done false []) = refl
after_ensure_ensures g due now (done false (w ∷ ws)) = refl

repair-Ready :
    (g : Guard) (last : Time) (due : Due) (a : Answers)
    → last ≤ a.now
    → Ready last g
    → ReadyAfter last a.now (repair g due a)
unfolding repair
repair-Ready g last due a h r = elim (Bool-cases (before a.now g.retry_at)) [
  | inl t ↦ rw t r
  | inr t ↦
      let w = wait_for_csf g a.now a.csf_pid a.csf_held in
      let waited = csf-Ready g last a.now a.csf_pid a.csf_held r in
      elim (Bool-cases w.1) [
        | inl u ↦ rw (t, u) waited
        | inr u ↦
            rw (t, u, after_ensure_ensures (clear_due w.0 due a.now) due a.now a.outcome)
              (after_ensure-Ready (clear_due w.0 due a.now) due a.now a.outcome
                (clear_due-Ready w.0 due a.now (later last a.now w.0 h waited)))
      ]
]

quick_check-Ready :
    (g : Guard) (last : Time) (a : Answers) (c : Check)
    → last ≤ a.now
    → a.now < g.next_full
    → Ready last g
    → ReadyAfter last a.now (quick_check g a c)
unfolding quick_check trouble
quick_check-Ready g last a check_failed h f r = ground arith
quick_check-Ready g last a in_place h f r = ground arith
quick_check-Ready g last a missing h f r =
    repair-Ready (record g { next_quick = a.now + guard_quick }) last quick a h
      (record {
        backoff_range = r.backoff_range;
        full_soon = r.full_soon;
        retry_soon = r.retry_soon;
      })

run_due-Ready :
    (g : Guard) (last : Time) (a : Answers)
    → last ≤ a.now
    → Ready last g
    → ReadyAfter last a.now (run_due g a)
unfolding run_due
run_due-Ready g last a h r =
    elim (Bool-cases (not (is_zero g.follow_up) && not (before a.now g.follow_up))) [
      | inl t ↦ rw t (repair-Ready g last follow_up a h r)
      | inr t ↦ elim (Bool-cases (before a.now g.next_full)) [
        | inr u ↦ rw (t, u) (repair-Ready g last full a h r)
        | inl u ↦ elim (Bool-cases (before a.now g.next_quick)) [
          | inl v ↦ rw (t, u, v) r
          | inr v ↦ rw (t, u, v) (quick_check-Ready g last a a.check h (ground (arith, u)) r)
        ]
      ]
    ]

calm-Ready : (g : Guard) (last now : Time) → Ready last g → Ready last (calm g now)
unfolding calm
calm-Ready g last now r = ground arith

flush-Ready : (g : Guard) (last now : Time) → Ready last g → Ready last (flush_events g now).0
unfolding flush_events
flush-Ready g last now r = ground arith

tick-Ready :
    (g : Guard) (last : Time) (a : Answers)
    → last ≤ a.now
    → Ready last g
    → ReadyAfter last a.now (tick g a)
unfolding tick
tick-Ready g last a h r =
    let g1 = (flush_events g a.now).0 in
    run_due-Ready (calm g1 a.now) last a h (calm-Ready g1 last a.now (flush-Ready g last a.now r))

-- Ticks whose times do not run backwards, from the start of the guard to `now`.
abbrev pub Ticking : Time → List Answers → Time → Type 0
Ticking at [] now = at ≤ now
Ticking at (a ∷ ticks) now = Ticking at ticks a.now × (a.now ≤ now)

-- When `ensure` was called last, or when the guard started.
abbrev pub last_ensure : Time → List Answers → Time
last_ensure at [] = at
last_ensure at (a ∷ ticks) =
    ensured_at (last_ensure at ticks) a.now (tick (trace at ticks).guard a).1

ensured_at-le : (last now : Time) (b : Bool) → last ≤ now → ensured_at last now b ≤ now
ensured_at-le last now true h = omega arith
ensured_at-le last now false h = h

last_ensure-le :
    (at : Time) (ticks : List Answers) (now : Time)
    → Ticking at ticks now
    → last_ensure at ticks ≤ now
last_ensure-le at [] now h = h
last_ensure-le at (a ∷ ticks) now h =
    let le =
      ensured_at-le (last_ensure at ticks) a.now (tick (trace at ticks).guard a).1
        (last_ensure-le at ticks a.now h.0) in
    omega (arith, le, h.1)

pub trace-Ready :
    (at : Time) (ticks : List Answers) (now : Time)
    → Ticking at ticks now
    → Ready (last_ensure at ticks) (trace at ticks).guard
unfolding trace start
trace-Ready at [] now h = ground arith
trace-Ready at (a ∷ ticks) now h =
    tick-Ready (trace at ticks).guard (last_ensure at ticks) a (last_ensure-le at ticks a.now h.0)
      (trace-Ready at ticks a.now h.0)
