-- ===== src/Session/Risk.antt =====
-- internal/session/risk.go: `CalculateRisk`. The two patterns and strings.ToLower are arguments.
use infrafence_agent.Base.{
  ℕ, ◌+◌, ◌*◌, Bool, true, false, not, ◌&&◌, ◌||◌, List, [], ◌∷◌, ◌++◌, String, ltb, leb, ◌==◌,
  if◌then◌else◌, length, none, some,
}
use infrafence_agent.Base.Dict.{Dict, lookup}
use infrafence_agent.Base.Keys.{string_key, ◌=?◌}

-- `CommandEntry`, less the user, which the score does not read.
pub record Command : Type 0 where
  pub kind : String
  pub command : String
  pub details : Dict String String

-- `SessionData`.
pub record SessionData : Type 0 where
  pub auth_method : String
  pub ip : String
  pub login_hour : ℕ
  pub commands : List Command
  pub known_ips : Dict String Bool
  pub sigma_alerts : ℕ
  pub recurring_automation : Bool

-- What the regexp package and strings.ToLower say of a command.
pub record Patterns : Type 0 where
  pub lower : String → String
  pub sensitive_read : String → Bool
  pub remote_exec : String → Bool

-- What a Go map gives for a key: the zero value if it is missing.
abbrev pub known : Dict String Bool → String → Bool
known m ip = elim (lookup ip m) [ none ↦ false | some b ↦ b ]

abbrev pub has_root_uid : Command → Bool
has_root_uid c = elim (lookup "UID" c.details) [ none ↦ false | some uid ↦ uid =? "0" ]

-- The cases of the `switch`.
pub data Kind : Type 0 where
  sudo useradd userdel passwd crontab other : Kind

unfoldable pub kind_of : Command → Kind
kind_of c =
    if c.kind =? "sudo"
    then sudo
    else if c.kind =? "useradd"
    then useradd
    else if c.kind =? "userdel"
    then userdel
    else if c.kind =? "passwd"
    then passwd
    else if c.kind =? "crontab"
    then crontab
    else other

-- The score, the factors, and which factors of the commands have been added.
pub record Tally : Type 0 where
  pub score : ℕ
  pub factors : List String
  pub sensitive : Bool
  pub remote : Bool
  pub root_user : Bool
  pub deletion : Bool
  pub password : Bool
  pub cron : Bool

-- `add`.
abbrev pub add : ℕ → String → Tally → Tally
add points factor t = record t { score = t.score + points; factors = t.factors ++ factor ∷ [] }

abbrev pub add_if : Bool → ℕ → String → Tally → Tally
add_if b points factor t = if b then add points factor t else t

-- The two cases of sudo, one after the other.
unfoldable pub on_sudo : Patterns → Command → Tally → Tally
on_sudo p c t =
    let text = p.lower c.command in
    let t1 =
      if not t.sensitive && p.sensitive_read text
      then add 30 "sensitive_file_read" (record t { sensitive = true })
      else t in
    if not t1.remote && p.remote_exec text
    then add 30 "remote_code_exec" (record t1 { remote = true })
    else t1

unfoldable pub on_command : Patterns → Command → Tally → Tally
on_command p c t = elim (kind_of c) [
  | sudo ↦ on_sudo p c t
  | useradd ↦
      if not t.root_user && has_root_uid c
      then add 25 "root_user_creation" (record t { root_user = true })
      else t
  | userdel ↦ if not t.deletion then add 15 "user_deletion" (record t { deletion = true }) else t
  | passwd ↦ if not t.password then add 10 "password_change" (record t { password = true }) else t
  | crontab ↦ if not t.cron then add 10 "crontab_modification" (record t { cron = true }) else t
  | other ↦ t
]

unfoldable pub on_commands : Patterns → List Command → Tally → Tally
on_commands p [] t = t
on_commands p (c ∷ cs) t = on_commands p cs (on_command p c t)

abbrev pub no_tally : Tally
no_tally = record {
  score = 0;
  factors = [];
  sensitive = false;
  remote = false;
  root_user = false;
  deletion = false;
  password = false;
  cron = false;
}

abbrev pub at_night : ℕ → Bool
at_night hour = leb 22 hour || leb hour 5

-- An empty table of known addresses knows none.
abbrev pub is_unknown : SessionData → Bool
is_unknown d = length d.known_ips == 0 || not (known d.known_ips d.ip)

-- The factors of the login itself.
unfoldable pub on_login : SessionData → Tally → Tally
on_login d t =
    let auto = d.recurring_automation in
    let t1 = add_if auto 0 "recurring_automation" t in
    let t2 = add_if (d.auth_method =? "password") 15 "password_auth" t1 in
    let t3 = add_if (not auto && is_unknown d) 20 "unknown_ip" t2 in
    add_if (not auto && at_night d.login_hour) 10 "night_login" t3

-- `CalculateRisk`: the score and the factors.
unfoldable pub calculate_risk : Patterns → SessionData → ℕ × List String
calculate_risk p d =
    let t = on_commands p d.commands (on_login d no_tally) in
    let t' =
      add_if (not d.recurring_automation && ltb 0 d.sigma_alerts) (40 * d.sigma_alerts)
        "sigma_correlation" t in
    (if ltb 100 t'.score then 100 else t'.score, t'.factors)
