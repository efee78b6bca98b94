-- ===== src/Guard/Events.antt =====
-- cmd/infrafence-agent/fwguard.go: the events of the guard over any history of ticks: at most one a
-- minute of each kind, and no repair is lost.
use infrafence_agent.Base.{
  ℕ, ◌+◌, ◌≤◌, ◌<◌, Bool, true, false, List, [], ◌∷◌, ◌++◌, ◌≡◌, refl, ◌⊎◌, arith, String,
}
use infrafence_agent.Base.Time.{Time, Duration}
use infrafence_agent.Guard.State.{
  Guard, Event, rules_restored, conflict, guard_quick, guard_event_every, guard_conflict, trouble,
  wait_for_csf, flush_events, raise_conflict, note_repair,
}
use infrafence_agent.Guard.Tick.{
  Check, check_failed, in_place, missing, Outcome, failed, done, Answers, Due, follow_up, full,
  quick, Ticked, repaired, clear_due, after_repair, after_ensure, repair, quick_check, run_due,
  calm, tick,
}

-- The times of the `firewall_rules_restored` events among those sent at `now`, and of the
-- `firewall_conflict` events.
abbrev pub restored_times : Time → List Event → List Time
restored_times now [] = []
restored_times now (rules_restored n what ∷ es) = now ∷ restored_times now es
restored_times now (conflict n b ∷ es) = restored_times now es

abbrev pub conflict_times : Time → List Event → List Time
conflict_times now [] = []
conflict_times now (rules_restored n what ∷ es) = conflict_times now es
conflict_times now (conflict n b ∷ es) = now ∷ conflict_times now es

-- The repairs that the events report.
abbrev pub reported : List Event → ℕ
reported [] = 0
reported (rules_restored n what ∷ es) = n + reported es
reported (conflict n b ∷ es) = reported es

-- The firewall was restored, by a call of `ensure`.
abbrev pub restores : Bool → Outcome → ℕ
restores true (done false (w ∷ ws)) = 1
restores _ _ = 0

-- What a part of a tick does with one kind of event: it sends none and leaves the time of the last
-- one, or sends one that is due and keeps its time.
abbrev Limited : Duration → Time → Time → Time → List Time → Type 0
Limited every now last last' times =
    ((times ≡ []) × (last' ≡ last))
    ⊎ ((times ≡ now ∷ []) × (last' ≡ now) × ((last ≡ 0) ⊎ (last + every ≤ now)))

abbrev Accounted : Guard → Time → Guard → List Event → ℕ → Type 0
Accounted g now g' es made =
    Limited guard_event_every now g.last_event g'.last_event (restored_times now es)
    × Limited guard_conflict now g.last_conflict g'.last_conflict (conflict_times now es)
    × (reported es + g'.pending_n ≡ made + g.pending_n)

note_repair_lem :
    (g : Guard) (now : Time) (what : List String) (b : Bool)
    → let (g', es) = note_repair g now what b in Accounted g now g' es 1
unfolding note_repair flush_events raise_conflict
note_repair_lem g now what b = ground arith

-- What the other parts of a tick leave alone.
abbrev Kept : Guard → Guard → Type 0
Kept g g' =
    (g'.last_event ≡ g.last_event)
    × (g'.last_conflict ≡ g.last_conflict)
    × (g'.pending_n ≡ g.pending_n)

carry :
    (g h : Guard) (r : Ticked) (now : Time) (made : ℕ)
    → Kept g h
    → Accounted h now r.0 r.2 made
    → Accounted g now r.0 r.2 made
carry g h r now made k a = ground arith

Kept-Accounted : (g g' : Guard) (now : Time) → Kept g g' → Accounted g now g' [] 0
Kept-Accounted g g' now k = ground arith

repaired-Kept : (g : Guard) (due : Due) (now : Time) → Kept g (repaired g due now).0
unfolding repaired trouble
repaired-Kept g due now = ground arith

after_repair_lem :
    (g : Guard) (due : Due) (now : Time) (what : List String)
    → let (g', e, es) = after_repair g due now what in Accounted g now g' es 1
unfolding after_repair
after_repair_lem g due now what =
    let (h, b) = repaired g due now in
    carry g h ((note_repair h now what b).0, true, (note_repair h now what b).1) now 1
      (repaired-Kept g due now) (note_repair_lem h now what b)

trouble-Kept : (g : Guard) (now : Time) → Kept g (trouble g now)
unfolding trouble
trouble-Kept g now = (refl, refl, refl)

after_ensure_lem :
    (g : Guard) (due : Due) (now : Time) (o : Outcome)
    → let (g', e, es) = after_ensure g due now o in Accounted g now g' es (restores e o)
unfolding after_ensure after_repair
after_ensure_lem g due now failed = Kept-Accounted g (trouble g now) now (trouble-Kept g now)
after_ensure_lem g due now (done true what) = Kept-Accounted g g now (refl, refl, refl)
after_ensure_lem g due now (done false []) = Kept-Accounted g g now (refl, refl, refl)
after_ensure_lem g due now (done false (w ∷ ws)) = after_repair_lem g due now (w ∷ ws)

csf_cleared-Kept :
    (g : Guard) (due : Due) (now : Time) (pid : ℕ) (held : Bool)
    → Kept g (clear_due (wait_for_csf g now pid held).0 due now)
unfolding wait_for_csf clear_due
csf_cleared-Kept g due now pid held = ground arith

csf-Kept : (g : Guard) (now : Time) (pid : ℕ) (held : Bool) → Kept g (wait_for_csf g now pid held).0
unfolding wait_for_csf
csf-Kept g now pid held = ground arith

repair_lem :
    (g : Guard) (due : Due) (a : Answers)
    → let (g', e, es) = repair g due a in Accounted g a.now g' es (restores e a.outcome)
unfolding repair
repair_lem g due a =
    let h = clear_due (wait_for_csf g a.now a.csf_pid a.csf_held).0 due a.now in
    let r = after_ensure h due a.now a.outcome in
    ground (
      arith,
      csf-Kept g a.now a.csf_pid a.csf_held,
      carry g h r a.now (restores r.1 a.outcome) (csf_cleared-Kept g due a.now a.csf_pid a.csf_held)
          (after_ensure_lem h due a.now a.outcome),
    )

quick_check_lem :
    (g : Guard) (a : Answers) (c : Check)
    → let (g', e, es) = quick_check g a c in Accounted g a.now g' es (restores e a.outcome)
unfolding quick_check trouble
quick_check_lem g a check_failed = ground arith
quick_check_lem g a in_place = ground arith
quick_check_lem g a missing =
    let h = record g { next_quick = a.now + guard_quick } in
    let r = repair h quick a in
    carry g h r a.now (restores r.1 a.outcome) (refl, refl, refl) (repair_lem h quick a)

run_due_lem :
    (g : Guard) (a : Answers)
    → let (g', e, es) = run_due g a in Accounted g a.now g' es (restores e a.outcome)
unfolding run_due
run_due_lem g a =
    ground (arith, repair_lem g follow_up a, repair_lem g full a, quick_check_lem g a a.check)

calm-Kept : (g : Guard) (now : Time) → Kept g (calm g now)
unfolding calm
calm-Kept g now = ground arith

flush_events_lem :
    (g : Guard) (now : Time) → let (g', es) = flush_events g now in Accounted g now g' es 0
unfolding flush_events
flush_events_lem g now = ground arith

restored_times-append :
    (now : Time) (es fs : List Event)
    → restored_times now (es ++ fs) ≡ restored_times now es ++ restored_times now fs
restored_times-append now [] fs = refl
restored_times-append now (rules_restored n what ∷ es) fs = rw (restored_times-append now es fs)
restored_times-append now (conflict n b ∷ es) fs = restored_times-append now es fs

conflict_times-append :
    (now : Time) (es fs : List Event)
    → conflict_times now (es ++ fs) ≡ conflict_times now es ++ conflict_times now fs
conflict_times-append now [] fs = refl
conflict_times-append now (rules_restored n what ∷ es) fs = conflict_times-append now es fs
conflict_times-append now (conflict n b ∷ es) fs = rw (conflict_times-append now es fs)

pub reported-append : (es fs : List Event) → reported (es ++ fs) ≡ reported es + reported fs
reported-append [] fs = omega arith
reported-append (rules_restored n what ∷ es) fs = omega (arith, reported-append es fs)
reported-append (conflict n b ∷ es) fs = reported-append es fs

both_Accounted :
    (g h : Guard) (r : Ticked) (now : Time) (es : List Event) (made : ℕ)
    → 0 < now
    → Accounted g now h es 0
    → Accounted h now r.0 r.2 made
    → Accounted g now r.0 (es ++ r.2) made
both_Accounted g h r now es made p a b =
    rw (restored_times-append now es r.2, conflict_times-append now es r.2, reported-append es r.2)
      (ground arith)

-- A tick sends at most one event of each kind, and only when the last one is a minute old, or an hour
-- for a conflict; the repairs that it reports and those still to report are those pending before
-- and the one that it made.
pub tick_lem :
    (g : Guard) (a : Answers)
    → 0 < a.now
    → let (g', e, es) = tick g a in Accounted g a.now g' es (restores e a.outcome)
unfolding tick
tick_lem g a p =
    let (h, sent) = flush_events g a.now in
    let r = run_due (calm h a.now) a in
    let made = restores r.1 a.outcome in
    both_Accounted g h r a.now sent made p (flush_events_lem g a.now)
      (carry h (calm h a.now) r a.now made (calm-Kept h a.now) (run_due_lem (calm h a.now) a))
