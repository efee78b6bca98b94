-- ===== src/Session/Examples.antt =====
-- internal/session/risk.go: the score of a small session.
use infrafence_agent.Base.{◌+◌, true, false, [], ◌∷◌, ◌≡◌, refl, min}
use infrafence_agent.Base.Dict.{lookup}
use infrafence_agent.Base.Keys.{string_key, ◌=?◌}
use infrafence_agent.Session.Risk.{
  SessionData, Patterns, kind_of, on_sudo, on_command, on_commands, on_login, calculate_risk,
  no_tally,
}
use infrafence_agent.Session.Score.{calculate_risk_lem, login_worth, worth, points}

abbrev patterns : Patterns
patterns = record {
  lower = λ s. s;
  sensitive_read = λ s. s =? "cat /etc/shadow";
  remote_exec = λ s. false;
}

-- A session by password at night, with two reads of the password file.
abbrev session : SessionData
session = record {
  auth_method = "password";
  ip = "198.51.100.1";
  login_hour = 3;
  commands =
      record { kind = "sudo"; command = "cat /etc/shadow"; details = [] }
      ∷ record { kind = "sudo"; command = "cat /etc/shadow"; details = [] }
      ∷ record { kind = "useradd"; command = ""; details = ("UID", "0") ∷ [] }
      ∷ [];
  known_ips = ("198.51.100.1", true) ∷ [];
  sigma_alerts = 1;
  recurring_automation = false;
}

risk_test : calculate_risk patterns session ≡ (
  100,
  "password_auth" ∷ "night_login" ∷ "sensitive_file_read" ∷ "root_user_creation"
      ∷ "sigma_correlation" ∷ [],
)
unfolding calculate_risk on_login on_commands on_command on_sudo kind_of lookup
risk_test = refl

calculate_risk_lem_example :
    (calculate_risk patterns session).0
    ≡ min 100 (login_worth session + worth patterns session.commands no_tally + points true 40)
calculate_risk_lem_example = calculate_risk_lem patterns session
