-- ===== src/Backoff/Streak.antt =====
-- internal/backoff/gate.go: the refusal clock against a description of a streak of refusals.
use infrafence_agent.Base.{
  ℕ, ◌+◌, ◌≤◌, ◌<◌, Bool, true, false, ◌&&◌, List, [], ◌∷◌, ◌≡◌, refl, arith, if◌then◌else◌,
  Bool-cases, inl, inr, ◌⊎◌, ◌∙◌, sym,
}
use infrafence_agent.Base.Int.{pos}
use infrafence_agent.Base.Time.{Time, Duration}
use infrafence_agent.Backoff.Reply.{Body, refusal, dashboard_body}
use infrafence_agent.Backoff.Delay.{clock_gap}
use infrafence_agent.Backoff.Gate.{
  Gate, Readings, new, restore_clock, stamp, extend, refused, ok, unreachable_at, set_idle,
  refused_for,
}
use infrafence_agent.Backoff.History.{
  Call, refuses, accepts, fails, idles, restores, step, run, Timed,
}

-- A refusal by the dashboard itself.
abbrev pub counts : ℕ → Body → Bool
counts status body = refusal status && dashboard_body body

-- `Streak cs first last`: the latest calls are a streak of refusals by the dashboard, none more than
-- an hour after the one before, from the time `first` to the time `last`, with no accepted request
-- and no failure to reach the dashboard in between or after. A restart takes up the streak that was saved
-- before it, if its latest refusal is at most an hour old.
pub data Streak : List Call → Time → Time → Type 0 where
  start :
      {cs : List Call} (status : ℕ) (body : Body) (t : Readings)
      → counts status body ≡ true
      → Streak (refuses status body t ∷ cs) t.at_entry t.at_entry
  again :
      {cs : List Call} {first last : Time} (status : ℕ) (body : Body) (t : Readings)
      → counts status body ≡ true
      → t.at_entry ≤ last + clock_gap
      → Streak cs first last
      → Streak (refuses status body t ∷ cs) first t.at_entry
  uncounted :
      {cs : List Call} {first last : Time} (status : ℕ) (body : Body) (t : Readings)
      → counts status body ≡ false
      → Streak cs first last
      → Streak (refuses status body t ∷ cs) first last
  idling :
      {cs : List Call} {first last : Time} (on : Bool)
      → Streak cs first last
      → Streak (idles on ∷ cs) first last
  resumed :
      {cs : List Call} (since last now : Time)
      → 0 < since
      → 0 < last
      → now ≤ last + clock_gap
      → Streak (restores since last now ∷ cs) since last
  not_resumed :
      {cs : List Call} {first latest : Time} (since last now : Time)
      → (since ≡ 0) ⊎ (last ≡ 0) ⊎ (last + clock_gap < now)
      → Streak cs first latest
      → Streak (restores since last now ∷ cs) first latest

refused_clock :
    (g : Gate) (status : ℕ) (body : Body) (t : Readings)
    → ((refused g status body t).0.since
        ≡ (if counts status body then (stamp g body t.at_entry).0.since else g.since))
      × ((refused g status body t).0.last ≡ (if counts status body then t.at_entry else g.last))
unfolding refused stamp extend
refused_clock g status body t = ground arith

stamp_since :
    (g : Gate) (body : Body) (now : Time)
    → dashboard_body body ≡ true
    → (((stamp g body now).0.since ≡ g.since) × (0 < g.since) × (now ≤ g.last + clock_gap))
      ⊎ ((stamp g body now).0.since ≡ now)
unfolding stamp
stamp_since g body now h = ground arith

cast : {cs : List Call} {a b c d : Time} → a ≡ c → b ≡ d → Streak cs a b → Streak cs c d
cast p q s = rw (← p, ← q) s

-- No streak is running, or the clock shows one.
abbrev Shown : List Call → Gate → Type 0
Shown cs g = ((g.since ≡ 0) × (g.last ≡ 0)) ⊎ Streak cs g.since g.last

refused-Shown :
    (cs : List Call) (g : Gate) (status : ℕ) (body : Body) (t : Readings)
    → Shown cs g
    → Shown (refuses status body t ∷ cs) (refused g status body t).0
refused-Shown cs g status body t s = elim (Bool-cases (counts status body)) [
  | inr c ↦
      let same : ((refused g status body t).0.since ≡ g.since)
          × ((refused g status body t).0.last ≡ g.last) =
        rw c at (refused_clock g status body t) in
      elim s [
        | inl z ↦ inl (same.0 ∙ z.0, same.1 ∙ z.1)
        | inr k ↦ inr (cast (sym same.0) (sym same.1) (uncounted status body t c k))
      ]
  | inl c ↦
      let clock : ((refused g status body t).0.since ≡ (stamp g body t.at_entry).0.since)
          × ((refused g status body t).0.last ≡ t.at_entry) =
        rw c at (refused_clock g status body t) in
      elim (stamp_since g body t.at_entry (ground arith)) [
        | inr e ↦ inr (cast (sym (clock.0 ∙ e)) (sym clock.1) (start status body t c))
        | inl (e, live, near) ↦ elim s [
          | inl z ↦ absurd (omega arith)
          | inr k ↦ inr (cast (sym (clock.0 ∙ e)) (sym clock.1) (again status body t c near k))
        ]
      ]
]

-- What RestoreClock does.
restore_clock_lem :
    (g : Gate) (since last now : Time)
    → ((0 < since)
        × (0 < last)
        × (now ≤ last + clock_gap)
        × ((restore_clock g since last now).since ≡ since)
        × ((restore_clock g since last now).last ≡ last))
      ⊎ (((since ≡ 0) ⊎ (last ≡ 0) ⊎ (last + clock_gap < now))
          × ((restore_clock g since last now).since ≡ g.since)
          × ((restore_clock g since last now).last ≡ g.last))
unfolding restore_clock
restore_clock_lem g since last now = ground arith

restored-Shown :
    (cs : List Call) (g : Gate) (since last now : Time)
    → Shown cs g
    → Shown (restores since last now ∷ cs) (restore_clock g since last now)
restored-Shown cs g since last now s = elim (restore_clock_lem g since last now) [
  | inl (p, q, near, a, b) ↦ inr (cast (sym a) (sym b) (resumed since last now p q near))
  | inr (why, a, b) ↦ elim s [
    | inl z ↦ inl (a ∙ z.0, b ∙ z.1)
    | inr k ↦ inr (cast (sym a) (sym b) (not_resumed since last now why k))
  ]
]

run-Shown : (cs : List Call) → Shown cs (run cs)
unfolding run step new ok unreachable_at set_idle
run-Shown [] = inl (refl, refl)
run-Shown (refuses status body t ∷ cs) = refused-Shown cs (run cs) status body t (run-Shown cs)
run-Shown (accepts ∷ cs) = inl (ground arith, ground arith)
run-Shown (fails t ∷ cs) = inl (ground arith, ground arith)
run-Shown (restores since last now ∷ cs) = restored-Shown cs (run cs) since last now (run-Shown cs)
run-Shown (idles on ∷ cs) = elim (run-Shown cs) [ inl z ↦ inl z | inr k ↦ inr (idling on k) ]

-- The agent counts itself refused for a time only while a streak of that length is running: if
-- `RefusedFor` answers a positive duration after any history, a restored clock included, the latest
-- calls are a streak that began that long ago, with its first refusal or with that of the streak which
-- was saved before the restart, and whose latest refusal lies within `fresh`.
pub refused_for-Streak :
    (cs : List Call) (fresh : Duration) (now : Time) (d : ℕ)
    → refused_for (run cs) fresh now ≡ pos d
    → 0 < d
    → (first last : Time) × Streak cs first last × (first + d ≡ now) × (now ≤ last + fresh)
unfolding refused_for
refused_for-Streak cs fresh now d h p = elim (run-Shown cs) [
  | inl z ↦ absurd (ground arith)
  | inr k ↦ ((run cs).since, (run cs).last, k, ground arith, ground arith)
]

now-pos : (cs : List Call) (now : Time) → Timed cs now → 0 < now
now-pos [] now h = h
now-pos (refuses status body t ∷ cs) now h = omega (arith, now-pos cs t.at_entry h.0)
now-pos (accepts ∷ cs) now h = now-pos cs now h
now-pos (fails t ∷ cs) now h = omega (arith, now-pos cs t h.0)
now-pos (idles on ∷ cs) now h = now-pos cs now h
now-pos (restores since last t ∷ cs) now h = omega (arith, now-pos cs t h.0)

stamp_order :
    (g : Gate) (body : Body) (now : Time)
    → g.since ≤ g.last
    → g.last ≤ now
    → 0 < now
    → dashboard_body body ≡ true
    → let s = (stamp g body now).0.since in
      (s ≤ now) × (0 < s) × ((now ≤ g.last + clock_gap) → 0 < g.since → s ≡ g.since)
unfolding stamp
stamp_order g body now p q r d = ground arith

refused_order :
    (g : Gate) (status : ℕ) (body : Body) (t : Readings)
    → g.since ≤ g.last
    → g.last ≤ t.at_entry
    → 0 < t.at_entry
    → let g' = (refused g status body t).0 in (g'.since ≤ g'.last) × (g'.last ≤ t.at_entry)
refused_order g status body t p q r =
    ground (arith, refused_clock g status body t, stamp_order g body t.at_entry p q r)

run_order :
    (cs : List Call) (now : Time)
    → Timed cs now
    → ((run cs).since ≤ (run cs).last) × ((run cs).last ≤ now)
unfolding run step new ok unreachable_at set_idle
run_order [] now h = omega arith
run_order (refuses status body t ∷ cs) now h =
    let (p, q) = run_order cs t.at_entry h.0 in
    omega (arith, refused_order (run cs) status body t p q (now-pos cs t.at_entry h.0))
run_order (accepts ∷ cs) now h = ground arith
run_order (fails t ∷ cs) now h = ground arith
run_order (idles on ∷ cs) now h = run_order cs now h
run_order (restores since last t ∷ cs) now h =
    grind (arith, run_order cs t h.0, restore_clock_lem (run cs) since last t)

-- Conversely, while a streak is running, with a clock that does not run backwards, the clock shows its
-- latest refusal, and goes back to its first one or further.
pub Streak-since :
    {cs : List Call} {first last : Time} (now : Time)
    → Timed cs now
    → Streak cs first last
    → ((run cs).since ≤ first) × ((run cs).last ≡ last) × (0 < (run cs).since)
unfolding run step set_idle
Streak-since now h (start {cs = cs} status body t c) =
    let (p, q) = run_order cs t.at_entry h.0 in
    ground (
      arith,
      refused_clock (run cs) status body t,
      stamp_order (run cs) body t.at_entry p q (now-pos cs t.at_entry h.0),
    )
Streak-since now h (again {cs = cs} status body t c near s) =
    let (p, q) = run_order cs t.at_entry h.0 in
    ground (
      arith,
      refused_clock (run cs) status body t,
      Streak-since t.at_entry h.0 s,
      stamp_order (run cs) body t.at_entry p q (now-pos cs t.at_entry h.0),
    )
Streak-since now h (uncounted {cs = cs} status body t c s) =
    ground (arith, refused_clock (run cs) status body t, Streak-since t.at_entry h.0 s)
Streak-since now h (idling on s) = Streak-since now h s
Streak-since now h (resumed {cs = cs} since last t p q near) =
    grind (arith, restore_clock_lem (run cs) since last t)
Streak-since now h (not_resumed {cs = cs} since last t why s) =
    grind (arith, restore_clock_lem (run cs) since last t, Streak-since t h.0 s)
