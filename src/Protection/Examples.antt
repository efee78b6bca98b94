-- ===== src/Protection/Examples.antt =====
-- cmd/infrafence-agent/refusal.go, protstate.go: a switch-off after an hour of refusals, and a small
-- outbox.
use infrafence_agent.Base.{◌+◌, ◌*◌, ◌≤◌, List, [], ◌∷◌, ◌≡◌, refl, arith}
use infrafence_agent.Base.Time.{Spaced, Time, minute, hour}
use infrafence_agent.Base.Text.{codes}
use infrafence_agent.Backoff.Reply.{str, obj, field, end, refusal, is_suspended, dashboard_body}
use infrafence_agent.Backoff.Delay.{delay, part}
use infrafence_agent.Backoff.Gate.{
  same_round, restore_clock, refused, stamp, extend, refused_for, clear_clock, ok, unreachable_at,
  set_idle, new,
}
use infrafence_agent.Backoff.History.{refuses, accepts, fails, step}
use infrafence_agent.Backoff.Streak.{Streak}
use infrafence_agent.Protection.Refusal.{
  Event, calling, checking, synced, agent, react, check_refusal, disable_protection,
  enable_protection, restore_refusal, refusal_fresh, refusal_limit, unix, protection_status, active,
}
use infrafence_agent.Protection.SwitchOff.{switched_off-Streak, calls_of}
use infrafence_agent.Base.{false, String, Option, none, some, length}
use infrafence_agent.Base.Dict.{lookup, insert, delete, retain}
use infrafence_agent.Base.Keys.{string_key, ◌=?◌}
use infrafence_agent.Base.Sort.{sort_by, insert_by}
use infrafence_agent.Protection.Outbox.{
  taken, flush_local_bans, flush_loop, to_report, note_ban_reported, note_local_ban, load_outbox,
  local_bans_to_keep,
}
use infrafence_agent.Protection.Evictions.{
  History, report_all, evicted, times, total, eviction_report_every, report_all-Spaced,
}
use infrafence_agent.Protection.Reported.{
  IsOutbox, Step, loading, reporting, noting, syncing, run_steps, run_step, run_steps-IsOutbox,
}

abbrev t0 : Time
t0 = 1000 * hour

-- A refusal by the dashboard.
abbrev refusal_at : Time → Event
refusal_at t = calling (
    refuses 401 (some (obj (field (codes "message") (str (codes "Unauthenticated.")) end)))
      (record { at_entry = t; at_check = t; at_end = t; rand = 0; rand_suspended = 0 }))

abbrev check_at : Time → Event
check_at t = checking (record { at_check = t; at_again = t; at_off = t })

-- Refusals half an hour apart, for an hour.
abbrev an_hour : List Event
an_hour = refusal_at (t0 + 60 * minute) ∷ refusal_at (t0 + 30 * minute) ∷ refusal_at t0 ∷ []

off_test :
    (agent none t0 hour (check_at (t0 + 61 * minute) ∷ an_hour)).disabled_at ≡ t0 + 61 * minute
unfolding agent react check_refusal disable_protection restore_refusal step refused refusal stamp
    dashboard_body same_round is_suspended extend delay part refused_for new set_idle
off_test = refl

-- An unreachable dashboard keeps the protection on.
unreachable_test :
    (agent none t0 hour
      (check_at (t0 + 62 * minute) ∷ calling (fails (t0 + 61 * minute)) ∷ an_hour)).disabled_at
    ≡ 0
unfolding agent react check_refusal disable_protection restore_refusal step refused refusal stamp
    dashboard_body same_round is_suspended extend delay part refused_for new set_idle unreachable_at
    clear_clock
unreachable_test = refl

on_again_test :
    protection_status
      (agent none t0 hour (synced ∷ calling accepts ∷ check_at (t0 + 61 * minute) ∷ an_hour))
    ≡ active
unfolding agent react check_refusal disable_protection restore_refusal step refused refusal stamp
    dashboard_body same_round is_suspended extend delay part refused_for new set_idle ok clear_clock
    enable_protection protection_status
on_again_test = refl

-- A restart after 25 hours of refusals: the first check switches protection off.
restart_test :
    (agent
      (some (record { refused_since = 1; refused_last = 90000; disabled_at = 0 }))
      (unix 91000)
      refusal_limit
      (check_at (unix 91060) ∷ [])).disabled_at
    ≡ unix 91060
unfolding agent react check_refusal disable_protection restore_refusal restore_clock refused_for new
    set_idle
restart_test = refl

switched_off-Streak_example :
    (first last : Time) × Streak (calls_of none t0 an_hour) first last
    × (first + hour ≤ t0 + 61 * minute)
    × (t0 + 61 * minute ≤ last + refusal_fresh)
unfolding agent react check_refusal disable_protection restore_refusal step refused refusal stamp
    dashboard_body same_round is_suspended extend delay part refused_for new set_idle
switched_off-Streak_example =
    switched_off-Streak none t0 hour an_hour
      (record {
        at_check = t0 + 61 * minute;
        at_again = t0 + 61 * minute;
        at_off = t0 + 61 * minute;
      })
      (omega arith) refl (omega arith)

-- Every text is an address.
abbrev as_is : String → Option String
as_is ip = some ip

abbrev two_bans : List Step
two_bans = noting "198.51.100.2" "ssh" 1 20 ∷ noting "198.51.100.1" "ssh" 1 10 ∷ []

flush_test :
    flush_local_bans as_is (λ ip. ip =? "198.51.100.2") (λ p. taken) 30 (run_steps as_is two_bans)
    ≡ (
      (
        "198.51.100.2",
        record { ip = "198.51.100.2"; reason = "ssh"; count = 1; at = 20; reported = 30 },
      )
          ∷ [],
      1,
      1,
    )
unfolding flush_local_bans flush_loop to_report note_ban_reported run_steps run_step note_local_ban
    sort_by insert_by lookup insert delete
flush_test = refl

-- After a restart with the two bans, one more is noted and reported, and a sync lists none.
abbrev a_restart : List Step
a_restart =
    syncing (λ ip. false) 60
    ∷ reporting "198.51.100.3" 50
    ∷ noting "198.51.100.3" "ssh" 1 40
    ∷ loading (
        record { ip = "198.51.100.1"; reason = "ssh"; count = 1; at = 10; reported = 0 }
        ∷ record { ip = "198.51.100.2"; reason = "ssh"; count = 1; at = 20; reported = 30 }
        ∷ [])
    ∷ []

a_restart-length : length (run_steps as_is a_restart) ≡ 3
unfolding run_steps run_step load_outbox note_ban_reported note_local_ban local_bans_to_keep lookup
    insert retain
a_restart-length = refl

run_steps-IsOutbox_example : IsOutbox (run_steps as_is a_restart)
run_steps-IsOutbox_example = run_steps-IsOutbox as_is a_restart

-- Three evictions, of which the second falls in the ten minutes after the first.
abbrev full_tables : History
full_tables = (2, t0 + 11 * minute) ∷ (3, t0 + 5 * minute) ∷ (1, t0) ∷ []

report_all_test : (report_all full_tables).1 ≡ (5, t0 + 11 * minute) ∷ (1, t0) ∷ []
unfolding report_all evicted
report_all_test = refl

report_all-Spaced_example :
    let s = report_all full_tables in
    Spaced eviction_report_every (times s.1) × (total s.1 + s.0.pending ≡ total full_tables)
report_all-Spaced_example =
    report_all-Spaced full_tables (omega arith, (omega arith, (omega arith, tt)))
