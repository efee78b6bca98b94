-- ===== src/Watcher/Examples.antt =====
-- internal/watcher/botscore.go: scores of one address.
use infrafence_agent.Base.{◌+◌, ◌*◌, [], ◌∷◌, String, ◌≡◌, refl, arith}
use infrafence_agent.Base.Dict.{lookup}
use infrafence_agent.Base.Keys.{string_key}
use infrafence_agent.Base.Time.{Time, minute, hour}
use infrafence_agent.Watcher.Scores.{
  Tracker, add_score, add_signal, get_score, decay_and_cleanup, classify, action_for_score,
  new_entry,
}
use infrafence_agent.Watcher.Decay.{get_score-decay_and_cleanup}

abbrev t0 : Time
t0 = 1000 * hour

abbrev ip : String
ip = "198.51.100.1"

add_test : (add_score [] ip "404_flood" 40 t0).1 ≡ 40
unfolding add_score add_signal lookup
add_test = refl

category_test : (add_score [] ip "404_flood" 40 t0).2 ≡ "scraper"
unfolding add_score add_signal lookup classify
category_test = refl

action_test : action_for_score 79 ≡ "throttle"
unfolding action_for_score
action_test = refl

-- An address with 100 points.
abbrev tracked : Tracker
tracked = (ip, record (new_entry t0) { score = 100 }) ∷ []

get_score-decay_and_cleanup_example :
    ((get_score tracked ip (t0 + 4 * minute)).0 ≡ 80)
    × ((get_score (decay_and_cleanup tracked (t0 + 4 * minute)) ip (t0 + 4 * minute)).0 ≡ 60)
unfolding lookup
get_score-decay_and_cleanup_example =
    get_score-decay_and_cleanup tracked ip (record (new_entry t0) { score = 100 }) (t0 + 4 * minute)
      (refl, tt) (omega arith) refl (omega arith) (omega arith) (omega arith)
