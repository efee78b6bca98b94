-- ===== src/Monitor/Flood.antt =====
-- internal/monitor/flood.go: the flood detector. The connections of /proc/net/tcp and the counters of
-- /proc/net/netstat are what a scan is given, none where they cannot be read.
use infrafence_agent.Base.{
  ℕ, ◌+◌, ◌*◌, ◌-◌, Bool, not, ◌&&◌, ◌||◌, Option, none, some, List, [], ◌∷◌, ◌++◌, String, ltb,
  leb, if◌then◌else◌, any, is_some,
}
use infrafence_agent.Base.Dict.{Dict, lookup, insert, retain, has}
use infrafence_agent.Base.Keys.{string_key, ◌=?◌}
use infrafence_agent.Base.Time.{Time, Duration, minute, sub_gt}

abbrev pub conn_threshold : ℕ
conn_threshold = 200

abbrev pub cookies_min : ℕ
cookies_min = 100

abbrev pub drops_min : ℕ
drops_min = 10

abbrev pub cooldown : Duration
cooldown = 5 * minute

-- `counts` is for a connection that is established, half open or in TIME-WAIT, `is_private` for a
-- private remote address.
pub record Conn : Type 0 where
  pub source : String
  pub counts : Bool
  pub is_private : Bool

pub data FloodEvent : Type 0 where
  connection_flood : String → ℕ → FloodEvent
  syn_flood : ℕ → ℕ → FloodEvent

-- `reported` holds the keys "conn:" and an address, by the address, and `syn_reported` the key
-- "synflood".
pub record FloodDetector : Type 0 where
  pub prev : Dict String ℕ
  pub reported : Dict String Time
  pub syn_reported : Option Time
  pub whitelists : List String

unfoldable pub should_skip : List String → Conn → Bool
should_skip whitelists c = c.is_private || any whitelists (λ w. w =? c.source)

abbrev pub number : Option ℕ → ℕ
number none = 0
number (some n) = n

unfoldable pub count_conn : List String → Conn → Dict String ℕ → Dict String ℕ
unfolding should_skip
count_conn whitelists c m =
    if not c.counts || should_skip whitelists c
    then m
    else insert c.source (number (lookup c.source m) + 1) m

unfoldable pub count_conns : List String → List Conn → Dict String ℕ → Dict String ℕ
unfolding count_conn
count_conns whitelists [] m = m
count_conns whitelists (c ∷ cs) m = count_conns whitelists cs (count_conn whitelists c m)

-- The loop over the counts: the events, and the cooldowns that they start.
unfoldable pub report_conns :
    Time → Dict String ℕ → List FloodEvent → Dict String Time → List FloodEvent × Dict String Time
report_conns now [] events reported = (events, reported)
report_conns now ((ip, n) ∷ rest) events reported =
    let fires = not (ltb n conn_threshold) && not (has ip reported) in
    report_conns now rest (if fires then events ++ connection_flood ip n ∷ [] else events)
      (if fires then insert ip now reported else reported)

unfoldable pub conn_signal :
    Time → List String → Option (List Conn) → Dict String Time → List FloodEvent × Dict String Time
unfolding report_conns count_conns
conn_signal now whitelists none reported = ([], reported)
conn_signal now whitelists (some conns) reported =
    report_conns now (count_conns whitelists conns []) [] reported

-- On 64-bit counters, one of which may have been reset.
unfoldable pub safe_delta : ℕ → ℕ → ℕ
safe_delta cur prev = if leb prev cur then cur - prev else 0

unfoldable pub syn_signal :
    Time → Dict String ℕ → Dict String ℕ → Option Time → List FloodEvent × Option Time
unfolding safe_delta
syn_signal now [] cur reported = ([], reported)
syn_signal now (p ∷ prev) [] reported = ([], reported)
syn_signal now (p ∷ prev) (c ∷ cur) reported =
    let cookies =
      safe_delta (number (lookup "SyncookiesSent" (c ∷ cur)))
        (number (lookup "SyncookiesSent" (p ∷ prev))) in
    let drops =
      safe_delta (number (lookup "ListenDrops" (c ∷ cur)))
        (number (lookup "ListenDrops" (p ∷ prev))) in
    if ltb cookies_min cookies && ltb drops_min drops && not (is_some reported)
    then (syn_flood cookies drops ∷ [], some now)
    else ([], reported)

-- A cooldown that is over is forgotten.
unfoldable pub still_cool : Time → Option Time → Option Time
still_cool now none = none
still_cool now (some t) = if sub_gt now t cooldown then none else some t

-- `Scan`, less its summary.
unfoldable pub scan :
    Time → Option (List Conn) → Dict String ℕ → FloodDetector → FloodDetector × List FloodEvent
unfolding conn_signal syn_signal still_cool
scan now conns cur d =
    let kept = retain (λ k t. not (sub_gt now t cooldown)) d.reported in
    let (events, reported) = conn_signal now d.whitelists conns kept in
    let (syn_events, syn_reported) = syn_signal now d.prev cur (still_cool now d.syn_reported) in
    (
      record d { prev = cur; reported = reported; syn_reported = syn_reported },
      events ++ syn_events,
    )
