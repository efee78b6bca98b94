-- ===== src/Scan/Examples.antt =====
-- internal/scanwatch/analyzer.go: the analyzer on small runs.
use infrafence_agent.Base.{ℕ, zero, suc, ◌+◌, ◌*◌, false, List, [], ◌∷◌, ◌≡◌, refl, arith}
use infrafence_agent.Base.Dict.{lookup, insert, delete, retain}
use infrafence_agent.Base.Keys.{string_key, nat_key}
use infrafence_agent.Base.Sort.{sort_by, insert_by}
use infrafence_agent.Base.Time.{Spaced, second, hour}
use infrafence_agent.Scan.Analyzer.{
  cooldown, Analyzer, Source, new_analyzer, observe_address, count_address, judge_address,
  in_window, observe, observe_network, count_network, judge_network,
}
use infrafence_agent.Scan.Networks.{
  Event, attempt, pruning, run_events, run_event, run_events-IsBounded,
}
use infrafence_agent.Scan.Bounds.{IsBounded}
use infrafence_agent.Scan.Cooldown.{report_times, reports, report_times-Spaced}

abbrev scanner : Source
scanner = record { skipped = false; address = "203.0.113.7"; network = "203.0.113.0/24" }

-- So many ports, one each second, the latest first.
abbrev scan : ℕ → List Event
scan zero = []
scan (suc n) = attempt scanner n (hour + n * second) ∷ scan n

scan_test : report_times scanner.address (scan 15) ≡ (hour + 14 * second) ∷ []
unfolding report_times reports run_events run_event observe observe_address count_address
    judge_address in_window observe_network count_network judge_network lookup insert delete retain
    sort_by insert_by
scan_test = refl

slow_test : report_times scanner.address (scan 14) ≡ []
unfolding report_times reports run_events run_event observe observe_address count_address
    judge_address in_window observe_network count_network judge_network lookup insert delete retain
    sort_by insert_by
slow_test = refl

run_events-IsBounded_example : IsBounded (run_events (pruning (2 * hour) ∷ scan 3))
run_events-IsBounded_example = run_events-IsBounded (pruning (2 * hour) ∷ scan 3)

report_times-Spaced_example : Spaced cooldown (report_times scanner.address (scan 3))
report_times-Spaced_example =
    report_times-Spaced scanner.address (scan 3) (omega arith, (omega arith, (omega arith, tt)))

-- An analyzer that remembers a report of an hour ago.
abbrev earlier : Analyzer
earlier = record new_analyzer { reported = (scanner.address, hour) ∷ [] }
