-- ===== src/Protection/SwitchOff.antt =====
-- cmd/infrafence-agent/refusal.go: when protection is switched off.
use infrafence_agent.Base.{
  ℕ, ◌+◌, ◌≤◌, ◌<◌, ◌≡◌, refl, ◌∙◌, ap, sym, subst, Bool, true, false, ◌&&◌, Option, none, some,
  ltb, if◌then◌else◌, List, [], ◌∷◌, arith, Bool-cases, inl, inr,
}
use infrafence_agent.Base.Int.{ℤ, pos, negsuc, leb_ℤ}
use infrafence_agent.Base.Time.{Time, Duration, is_zero}
use infrafence_agent.Backoff.Gate.{
  Gate, new, restore_clock, refused, stamp, extend, ok, unreachable_at, clear_clock, set_idle,
  refused_for,
}
use infrafence_agent.Backoff.History.{Call, refuses, accepts, fails, idles, restores, step, run}
use infrafence_agent.Backoff.Streak.{Streak, refused_for-Streak}
use infrafence_agent.Protection.Refusal.{
  Protection, Saved, unix, Readings, refusal_fresh, is_zero_ℤ, disable_protection, check_refusal,
  enable_protection, restore_refusal, Event, calling, checking, synced, react, agent,
}

-- The call that restores the clock at the start, if the saved state has one.
abbrev pub restoring : Option Saved → Time → List Call
restoring none at = []
restoring (some st) at =
    if ltb 0 st.refused_since && ltb 0 st.refused_last
    then restores (unix st.refused_since) (unix st.refused_last) at ∷ []
    else []

-- The calls of the gate at the start and among the events, the latest first.
abbrev pub calls_of : Option Saved → Time → List Event → List Call
calls_of saved at [] = restoring saved at
calls_of saved at (calling c ∷ es) = c ∷ calls_of saved at es
calls_of saved at (checking r ∷ es) = calls_of saved at es
calls_of saved at (synced ∷ es) = calls_of saved at es

-- Two gates whose refusal clocks agree.
record SameClock (g h : Gate) : Type 0 where
  since : g.since ≡ h.since
  last : g.last ≡ h.last
  unreachable : g.unreachable ≡ h.unreachable

step-SameClock : (g h : Gate) (c : Call) → SameClock g h → SameClock (step g c) (step h c)
unfolding step refused stamp extend ok unreachable_at clear_clock set_idle restore_clock
step-SameClock g h (refuses status body t) s = record {
  since = ground (arith, s.since, s.last);
  last = ground (arith, s.last);
  unreachable = ground (arith, s.unreachable);
}
step-SameClock g h accepts s = record {
  since = ground (arith, s.since, s.last);
  last = ground (arith, s.since, s.last);
  unreachable = ground (arith, s.unreachable);
}
step-SameClock g h (fails now) s = record {
  since = ground (arith, s.since, s.last);
  last = ground (arith, s.since, s.last);
  unreachable = ground (arith, s.unreachable);
}
step-SameClock g h (restores since last now) s = record {
  since = ground (arith, s.since);
  last = ground (arith, s.last);
  unreachable = ground (arith, s.unreachable);
}
step-SameClock g h (idles on) s = record {
  since = s.since;
  last = s.last;
  unreachable = s.unreachable;
}

-- A check that finds the protection on leaves it as it is, or switches it off after the refusals.
pub data Checked (p : Protection) (limit : Duration) (r : Readings) (p' : Protection) : Type 0 where
  left : p' ≡ p → Checked p limit r p'
  off :
      p.disabled_at ≡ 0
      → leb_ℤ (pos limit) (refused_for p.gate refusal_fresh r.at_check) ≡ true
      → p' ≡ record { gate = set_idle p.gate true; disabled_at = r.at_off }
      → Checked p limit r p'

check_refusal-Checked :
    (p : Protection) (limit : Duration) (r : Readings) → Checked p limit r (check_refusal p limit r)
unfolding check_refusal disable_protection
check_refusal-Checked p limit r = elim (Bool-cases (is_zero p.disabled_at)) [
  | inr d ↦ rw d (left refl)
  | inl d ↦ elim (Bool-cases (leb_ℤ (pos limit) (refused_for p.gate refusal_fresh r.at_check))) [
    | inr l ↦ rw (d, l) (left refl)
    | inl l ↦ elim (Bool-cases (is_zero_ℤ (refused_for p.gate refusal_fresh r.at_again))) [
      | inl z ↦ rw (d, l, z) (left refl)
      | inr z ↦ rw (d, l, z) (off (ground (arith, d)) l refl)
    ]
  ]
]

check_refusal-SameClock :
    (p p' : Protection) (limit : Duration) (r : Readings) (h : Gate)
    → Checked p limit r p'
    → SameClock p.gate h
    → SameClock p'.gate h
unfolding set_idle
check_refusal-SameClock p p' limit r h (left e) s = rw e s
check_refusal-SameClock p p' limit r h (off d l e) s =
    rw e (record { since = s.since; last = s.last; unreachable = s.unreachable })

enable_protection-SameClock :
    (p : Protection) (h : Gate) → SameClock p.gate h → SameClock (enable_protection p).0.gate h
unfolding enable_protection set_idle
enable_protection-SameClock p h s = elim (Bool-cases (is_zero p.disabled_at)) [
  | inl z ↦ rw z s
  | inr z ↦ rw z (record { since = s.since; last = s.last; unreachable = s.unreachable })
]

idle-SameClock : (b : Bool) (g : Gate) → SameClock (if b then set_idle g true else g) g
unfolding set_idle
idle-SameClock true g = record { since = refl; last = refl; unreachable = refl }
idle-SameClock false g = record { since = refl; last = refl; unreachable = refl }

restored_gate :
    (b : Bool) (since last at : Time)
    → (if b then restore_clock new since last at else new)
      ≡ run (if b then restores since last at ∷ [] else [])
unfolding run step
restored_gate true since last at = refl
restored_gate false since last at = refl

restore_refusal-SameClock :
    (saved : Option Saved) (at : Time)
    → SameClock (restore_refusal saved new at).gate (run (restoring saved at))
unfolding restore_refusal
restore_refusal-SameClock none at =
    unfold run in record { since = refl; last = refl; unreachable = refl }
restore_refusal-SameClock (some st) at =
    let b = ltb 0 st.refused_since && ltb 0 st.refused_last in
    subst (SameClock _) (restored_gate b (unix st.refused_since) (unix st.refused_last) at)
      (idle-SameClock (ltb 0 st.disabled_at) _)

agent-SameClock :
    (saved : Option Saved) (at : Time) (limit : Duration) (es : List Event)
    → SameClock (agent saved at limit es).gate (run (calls_of saved at es))
unfolding agent react run
agent-SameClock saved at limit [] = restore_refusal-SameClock saved at
agent-SameClock saved at limit (calling c ∷ es) =
    step-SameClock _ _ c (agent-SameClock saved at limit es)
agent-SameClock saved at limit (checking r ∷ es) =
    check_refusal-SameClock (agent saved at limit es) _ limit r _
      (check_refusal-Checked (agent saved at limit es) limit r) (agent-SameClock saved at limit es)
agent-SameClock saved at limit (synced ∷ es) =
    enable_protection-SameClock (agent saved at limit es) _ (agent-SameClock saved at limit es)

same_refused_for :
    (g h : Gate) (fresh : Duration) (now : Time)
    → SameClock g h
    → refused_for g fresh now ≡ refused_for h fresh now
unfolding refused_for
same_refused_for g h fresh now s = ground (arith, s.since, s.last, s.unreachable)

at_least :
    (limit : ℕ) (x : ℤ)
    → 0 < limit
    → leb_ℤ (pos limit) x ≡ true
    → (d : ℕ) × (x ≡ pos d) × (limit ≤ d)
at_least limit (pos d) p h = (d, refl, ground (arith, h))
at_least limit (negsuc d) p h = absurd (ground (arith, h, p))

-- Protection that is on is switched off by a check only at the end of a streak of refusals by the
-- dashboard that has lasted for the limit, whose latest one lies within an hour, and which no accepted
-- request and no failure to reach the dashboard interrupts. After a restart the streak may be the one
-- whose clock was saved before it, if that was at most an hour old at the start.
pub switched_off-Streak :
    (saved : Option Saved) (at : Time) (limit : Duration) (es : List Event) (r : Readings)
    → 0 < limit
    → (agent saved at limit es).disabled_at ≡ 0
    → 0 < (agent saved at limit (checking r ∷ es)).disabled_at
    → (first last : Time) × Streak (calls_of saved at es) first last
      × (first + limit ≤ r.at_check)
      × (r.at_check ≤ last + refusal_fresh)
unfolding agent react
switched_off-Streak saved at limit es r positive on now_off =
    judged _ (check_refusal-Checked (agent saved at limit es) limit r) now_off
  where
    judged :
        (p' : Protection)
        → Checked (agent saved at limit es) limit r p'
        → 0 < p'.disabled_at
        → (first last : Time) × Streak (calls_of saved at es) first last
          × (first + limit ≤ r.at_check)
          × (r.at_check ≤ last + refusal_fresh)
    judged p' (left e) h = absurd (ground (arith, ap (λ (q : Protection). q.disabled_at) e, on, h))
    judged p' (off on' l e) h =
        let same =
          same_refused_for (agent saved at limit es).gate (run (calls_of saved at es)) refusal_fresh
            r.at_check (agent-SameClock saved at limit es) in
        let (d, x, far) = at_least limit _ positive l in
        let (first, last, streak, began, near) =
          refused_for-Streak (calls_of saved at es) refusal_fresh r.at_check d (sym same ∙ x)
            (omega (arith, positive, far)) in
        (first, last, streak, omega (arith, began, far), near)
