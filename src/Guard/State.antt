-- ===== src/Guard/State.antt =====
-- cmd/infrafence-agent/fwguard.go: the guard's state, its back-off, its wait for csf, and the events
-- that it queues. The set of restored things is a list without repetitions.
use infrafence_agent.Base.{
  ℕ, ◌+◌, ◌*◌, min, Bool, true, false, not, ◌&&◌, ◌||◌, List, [], ◌∷◌, ◌++◌, ltb, leb, ◌==◌,
  if◌then◌else◌, String, select, length,
}
use infrafence_agent.Base.Keys.{string_key, ◌=?◌}
use infrafence_agent.Base.Time.{Time, Duration, second, minute, hour, is_zero, sub_ge, sub_lt}

abbrev pub guard_quick : Duration
guard_quick = 5 * second

abbrev pub guard_full : Duration
guard_full = minute

abbrev pub guard_follow_up : Duration
guard_follow_up = 2 * second

abbrev pub guard_back_to_back : Duration
guard_back_to_back = 30 * second

abbrev pub guard_backoff_min : Duration
guard_backoff_min = 5 * second

abbrev pub guard_backoff_max : Duration
guard_backoff_max = minute

abbrev pub guard_quiet : Duration
guard_quiet = 5 * minute

abbrev pub guard_csf_wait : Duration
guard_csf_wait = 2 * minute

abbrev pub guard_event_every : Duration
guard_event_every = minute

abbrev pub guard_conflict : Duration
guard_conflict = hour

pub record Guard : Type 0 where
  pub next_quick : Time
  pub next_full : Time
  pub follow_up : Time
  pub backoff : Duration
  pub retry_at : Time
  pub last_trouble : Time
  pub last_repair : Time
  pub repairs : List Time
  pub last_conflict : Time
  pub last_event : Time
  pub pending_n : ℕ
  pub pending_what : List String
  pub csf_pid : ℕ
  pub csf_since : Time
  pub csf_forced : Bool

-- An event sent to the dashboard: the repairs since the last one and what they restored, or a
-- conflict with the repairs of the last hour.
pub data Event : Type 0 where
  rules_restored : ℕ → List String → Event
  conflict : ℕ → Bool → Event

-- `start`, on a new guard.
unfoldable pub start : Time → Guard
start now = record {
  next_quick = now + guard_quick;
  next_full = now + guard_full;
  follow_up = 0;
  backoff = 0;
  retry_at = 0;
  last_trouble = 0;
  last_repair = 0;
  repairs = [];
  last_conflict = 0;
  last_event = 0;
  pending_n = 0;
  pending_what = [];
  csf_pid = 0;
  csf_since = 0;
  csf_forced = false;
}

unfoldable pub next_backoff : Duration → Duration
next_backoff b =
    if b == 0
    then guard_backoff_min
    else if ltb b guard_backoff_max
    then min (2 * b) guard_backoff_max
    else b

-- `trouble`.
unfoldable pub trouble : Guard → Time → Guard
unfolding next_backoff
trouble g now =
    let b = next_backoff g.backoff in
    record g { backoff = b; retry_at = now + b; last_trouble = now }

-- `waitForCSF`, given the holder of csf's lock.
unfoldable pub wait_for_csf : Guard → Time → ℕ → Bool → Guard × Bool
wait_for_csf g now pid held =
    if not held
    then (record g { csf_pid = 0; csf_since = 0; csf_forced = false }, false)
    else (let g1 =
          if not (pid == g.csf_pid) || is_zero g.csf_since
          then record g { csf_pid = pid; csf_since = now; csf_forced = false }
          else g in
        if g1.csf_forced
        then (g1, false)
        else if sub_lt now g1.csf_since guard_csf_wait
        then (g1, true)
        else (record g1 { csf_forced = true }, false))

-- `flushEvents`.
unfoldable pub flush_events : Guard → Time → Guard × List Event
flush_events g now =
    if g.pending_n == 0 || (not (is_zero g.last_event) && sub_lt now g.last_event guard_event_every)
    then (g, [])
    else (
      record g { last_event = now; pending_n = 0; pending_what = [] },
      rules_restored g.pending_n g.pending_what ∷ [],
    )

member : String → List String → Bool
member w [] = false
member w (x ∷ xs) = x =? w || member w xs

-- `for _, w := range what { g.pendingWhat[w] = true }`.
unfoldable pub add_all : List String → List String → List String
unfolding member
add_all pending [] = pending
add_all pending (w ∷ ws) = add_all (if member w pending then pending else pending ++ w ∷ []) ws

-- `len(recent) == 0 || now.Sub(recent[len(recent)-1]) >= guardBackToBack`.
unfoldable pub last_is_old : List Time → Time → Bool
last_is_old [] now = true
last_is_old (t ∷ []) now = sub_ge now t guard_back_to_back
last_is_old (t ∷ u ∷ ts) now = last_is_old (u ∷ ts) now

unfoldable pub record_repair : List Time → Time → List Time
unfolding last_is_old
record_repair repairs now =
    let recent = select (λ t. sub_lt now t hour) repairs in
    if last_is_old recent now then recent ++ now ∷ [] else recent

unfoldable pub raise_conflict : Guard → Time → Bool → Guard × List Event
raise_conflict g now back_to_back =
    if (back_to_back || leb 3 (length g.repairs))
      && (is_zero g.last_conflict || sub_ge now g.last_conflict guard_conflict)
    then (record g { last_conflict = now }, conflict (length g.repairs) back_to_back ∷ [])
    else (g, [])

-- `noteRepair`.
unfoldable pub note_repair : Guard → Time → List String → Bool → Guard × List Event
note_repair g now what back_to_back =
    let g1 = record g {
      pending_n = g.pending_n + 1;
      pending_what = add_all g.pending_what what;
      repairs = record_repair g.repairs now;
    } in
    let (g2, sent) = flush_events g1 now in
    let (g3, raised) = raise_conflict g2 now back_to_back in (g3, sent ++ raised)
