-- ===== src/Watcher/Scores.antt =====
-- internal/watcher/botscore.go: the tracker of bot scores. The points are not negative, and neither is a
-- score. The whole minutes of a duration are its quotient by a minute.
use infrafence_agent.Base.{
  ℕ, ◌+◌, ◌-◌, ◌*◌, ◌/◌, Bool, false, ◌||◌, Option, none, some, List, [], ◌∷◌, ◌++◌, String, ltb,
  leb, if◌then◌else◌, length, drop,
}
use infrafence_agent.Base.Dict.{Dict, lookup, insert}
use infrafence_agent.Base.Keys.{string_key, ◌=?◌}
use infrafence_agent.Base.Time.{Time, Duration, minute, sub_gt}

abbrev pub max_bot_score_entries : ℕ
max_bot_score_entries = 20000

abbrev pub max_signals_per_ip : ℕ
max_signals_per_ip = 20

abbrev pub decay_points_per_min : ℕ
decay_points_per_min = 5

abbrev pub cleanup_max_age : Duration
cleanup_max_age = 30 * minute

-- `scoreSignal`.
pub record Signal : Type 0 where
  pub reason : String
  pub points : ℕ
  pub at : Time

-- `ipScore`.
pub record IpScore : Type 0 where
  pub score : ℕ
  pub signals : List Signal
  pub last_update : Time
  pub first_seen : Time

-- `BotScoreTracker`, less its lock.
abbrev pub Tracker : Type 0
Tracker = Dict String IpScore

-- `ActionForScore`.
unfoldable pub action_for_score : ℕ → String
action_for_score score =
    if leb 100 score
    then "blacklist"
    else if leb 80 score
    then "block"
    else if leb 60 score
    then "throttle"
    else if leb 30 score
    then "observe"
    else "normal"

abbrev pub has_reason : List Signal → String → Bool
has_reason [] reason = false
has_reason (s ∷ ss) reason = (s.reason =? reason) || has_reason ss reason

-- `classifyLocked`.
unfoldable pub classify : IpScore → String
classify e =
    let has = has_reason e.signals in
    if has "honeypot_triggered" || has "scanner_ua" || has "scanner_detected"
    then "scanner"
    else if has "sql_injection"
        || has "rce_attempt"
        || has "xss_attempt"
        || has "ssrf_attempt"
        || has "web_shell"
        || has "shellshock"
        || has "web_exploit"
    then "exploit_bot"
    else if has "wp_bruteforce" || has "xmlrpc_abuse"
    then "credential_stuffer"
    else if has "404_flood"
    then "scraper"
    else "unknown"

-- What an idle time takes off a score.
abbrev pub decay : Time → IpScore → ℕ
decay now e =
    if sub_gt now e.last_update minute
    then (now - e.last_update) / minute * decay_points_per_min
    else 0

abbrev pub last_signals : List Signal → List Signal
last_signals ss =
    if ltb max_signals_per_ip (length ss) then drop (length ss - max_signals_per_ip) ss else ss

-- An entry with a new signal.
unfoldable pub add_signal : IpScore → String → ℕ → Time → IpScore
add_signal e reason points now = record e {
  score = (e.score - decay now e) + points;
  signals = last_signals (e.signals ++ record { reason = reason; points = points; at = now } ∷ []);
  last_update = now;
}

abbrev pub new_entry : Time → IpScore
new_entry now = record { score = 0; signals = []; last_update = now; first_seen = now }

-- `AddScore`: the tracker, the score and the category.
unfoldable pub add_score : Tracker → String → String → ℕ → Time → Tracker × ℕ × String
add_score m ip reason points now =
    let e =
      add_signal (elim (lookup ip m) as (λ x. IpScore) [ none ↦ new_entry now | some e ↦ e ]) reason
        points now in
    (insert ip e m, e.score, classify e)

-- `GetScore`.
unfoldable pub get_score : Tracker → String → Time → ℕ × String
get_score m ip now = elim (lookup ip m) [
  | none ↦ (0, "unknown")
  | some e ↦ (e.score - decay now e, classify e)
]

-- One entry in `DecayAndCleanup`: it goes, or stays with what is left of its score.
unfoldable pub aged : Time → IpScore → Option IpScore
aged now e =
    if sub_gt now e.last_update cleanup_max_age
    then none
    else if sub_gt now e.last_update minute
    then if leb e.score (decay now e)
      then none
      else some (record e { score = e.score - decay now e })
    else some e

abbrev pub keep_entry : String → Option IpScore → Tracker → Tracker
keep_entry ip none m = m
keep_entry ip (some e) m = (ip, e) ∷ m

-- The loop of `DecayAndCleanup`.
unfoldable pub sweep : Time → Tracker → Tracker
sweep now [] = []
sweep now ((ip, e) ∷ m) = keep_entry ip (aged now e) (sweep now m)

-- `DecayAndCleanup`. The half that goes is the first in the order of the map, whatever the scores.
unfoldable pub decay_and_cleanup : Tracker → Time → Tracker
decay_and_cleanup m now =
    let left = sweep now m in
    if ltb max_bot_score_entries (length left) then drop (length left / 2) left else left
