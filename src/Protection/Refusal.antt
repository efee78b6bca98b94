-- ===== src/Protection/Refusal.antt =====
-- cmd/infrafence-agent/refusal.go: the switch-off state and what changes it. What is switched off and on
-- (the firewall, the web server, the watchers, the login notice) is left out.
use infrafence_agent.Base.{
  ℕ, ◌+◌, ◌*◌, Bool, true, false, not, ◌&&◌, ◌||◌, Option, none, some, List, [], ◌∷◌, ltb,
  if◌then◌else◌,
}
use infrafence_agent.Base.Int.{ℤ, pos, negsuc, leb_ℤ}
use infrafence_agent.Base.Time.{Time, Duration, second, hour, is_zero}
use infrafence_agent.Backoff.Gate.{Gate, new, set_idle, refused_for, restore_clock}
use infrafence_agent.Backoff.History.{Call, step}

abbrev pub refusal_limit : Duration
refusal_limit = 24 * hour

abbrev pub refusal_fresh : Duration
refusal_fresh = hour

-- `protCtl`, less its locks, the watchers and the login notice. The time is zero while protection is on.
pub record Protection : Type 0 where
  pub gate : Gate
  pub disabled_at : Time

pub data Status : Type 0 where
  active refused_status disabled : Status

-- `protectionStatus`: the status alone.
unfoldable pub protection_status : Protection → Status
protection_status p =
    if not (is_zero p.disabled_at)
    then disabled
    else if not (is_zero p.gate.since)
    then refused_status
    else active

-- `protectionDisabled`.
abbrev pub protection_disabled : Protection → Bool
protection_disabled p = not (is_zero p.disabled_at)

-- `time.Unix(s, 0)`: the zero time lies so many seconds before 1970.
abbrev pub unix : ℕ → Time
unix s = (62135596800 + s) * second

-- What was saved before a restart, in seconds; zero is none.
pub record Saved : Type 0 where
  pub refused_since : ℕ
  pub refused_last : ℕ
  pub disabled_at : ℕ

-- `restoreRefusal`.
unfoldable pub restore_refusal : Option Saved → Gate → Time → Protection
restore_refusal none g now = record { gate = g; disabled_at = 0 }
restore_refusal (some st) g now =
    let off = ltb 0 st.disabled_at in
    let g' =
      if ltb 0 st.refused_since && ltb 0 st.refused_last
      then restore_clock g (unix st.refused_since) (unix st.refused_last) now
      else g in
    record {
      gate = if off then set_idle g' true else g';
      disabled_at = if off then unix st.disabled_at else 0;
    }

-- The clock as a check reads it: at the first and the second `RefusedFor`, and at the switch-off.
pub record Readings : Type 0 where
  pub at_check : Time
  pub at_again : Time
  pub at_off : Time

abbrev pub is_zero_ℤ : ℤ → Bool
is_zero_ℤ (pos n) = is_zero n
is_zero_ℤ (negsuc n) = false

-- `disableProtection`.
unfoldable pub disable_protection : Protection → Readings → Protection
disable_protection p r =
    if protection_disabled p || is_zero_ℤ (refused_for p.gate refusal_fresh r.at_again)
    then p
    else record { gate = set_idle p.gate true; disabled_at = r.at_off }

-- `checkRefusal`.
unfoldable pub check_refusal : Protection → Duration → Readings → Protection
check_refusal p limit r =
    if protection_disabled p
    then p
    else if leb_ℤ (pos limit) (refused_for p.gate refusal_fresh r.at_check)
    then disable_protection p r
    else p

-- `enableProtection`: and whether protection was off.
unfoldable pub enable_protection : Protection → Protection × Bool
enable_protection p =
    if is_zero p.disabled_at
    then (p, false)
    else (record { gate = set_idle p.gate false; disabled_at = 0 }, true)

-- What happens to the agent: a call of the gate, a check of the refusal, a successful sync.
pub data Event : Type 0 where
  calling : Call → Event
  checking : Readings → Event
  synced : Event

unfoldable pub react : Duration → Protection → Event → Protection
react limit p (calling c) = record p { gate = step p.gate c }
react limit p (checking r) = check_refusal p limit r
react limit p synced = (enable_protection p).0

-- An agent with a new gate that starts at a time with the state that was saved, if there was one, after
-- some events, the latest first.
unfoldable pub agent : Option Saved → Time → Duration → List Event → Protection
agent saved at limit [] = restore_refusal saved new at
agent saved at limit (e ∷ es) = react limit (agent saved at limit es) e
