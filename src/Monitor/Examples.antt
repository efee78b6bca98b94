-- ===== src/Monitor/Examples.antt =====
-- internal/monitor/flood.go: tests of the detector, and its theorems at concrete inputs.
use infrafence_agent.Base.{
  ℕ, true, false, none, some, List, [], ◌∷◌, ◌++◌, String, ◌≡◌, refl, zero, suc, ◌*◌,
}
use infrafence_agent.Base.Dict.{Dict, lookup, insert, retain, Distinct}
use infrafence_agent.Base.Keys.{string_key}
use infrafence_agent.Base.Time.{Time, minute}
use infrafence_agent.Monitor.Flood.{
  Conn, connection_flood, syn_flood, FloodDetector, should_skip, count_conns, report_conns,
  conn_signal, safe_delta, syn_signal, still_cool, scan,
}
use infrafence_agent.Monitor.Counted.{tally}
use infrafence_agent.Monitor.Entries.{reported_at, reports_of, due}
use infrafence_agent.Monitor.Reported.{read, scan_lem}

abbrev from : String → Conn
from a = record { source = a; counts = true; is_private = false }

abbrev many : ℕ → String → List Conn
many zero a = []
many (suc n) a = from a ∷ many n a

-- 200 connections of one source, 199 of another one, and 200 of a trusted one.
abbrev conns : List Conn
conns = many 200 "198.51.100.7" ++ many 199 "203.0.113.9" ++ many 200 "192.0.2.1"

abbrev detector : FloodDetector
detector = record {
  prev = ("SyncookiesSent", 5) ∷ ("ListenDrops", 7) ∷ [];
  reported = ("203.0.113.50", 1) ∷ [];
  syn_reported = none;
  whitelists = "192.0.2.1" ∷ [];
}

abbrev counters : Dict String ℕ
counters = ("SyncookiesSent", 106) ∷ ("ListenDrops", 18) ∷ []

abbrev now : Time
now = 10 * minute

scan_events :
    (scan now (some conns) counters detector).1
    ≡ connection_flood "198.51.100.7" 200 ∷ syn_flood 101 11 ∷ []
unfolding scan still_cool syn_signal safe_delta conn_signal report_conns count_conns should_skip
    retain lookup insert
scan_events = refl

scan_reported : (scan now (some conns) counters detector).0.reported ≡ ("198.51.100.7", now) ∷ []
unfolding scan still_cool syn_signal safe_delta conn_signal report_conns count_conns should_skip
    retain lookup insert
scan_reported = refl

distinct : Distinct detector.reported
unfolding lookup
distinct = (refl, tt)

scan_lem_example :
    (reports_of "198.51.100.7" (scan now (some conns) counters detector).1
      ≡ due
          (tally detector.whitelists "198.51.100.7" (read (some conns)))
          (still_cool now (lookup "198.51.100.7" detector.reported)))
    × (lookup "198.51.100.7" (scan now (some conns) counters detector).0.reported
        ≡ reported_at now
            (tally detector.whitelists "198.51.100.7" (read (some conns)))
            (still_cool now (lookup "198.51.100.7" detector.reported)))
    × Distinct (scan now (some conns) counters detector).0.reported
scan_lem_example = scan_lem now "198.51.100.7" (some conns) counters detector distinct
