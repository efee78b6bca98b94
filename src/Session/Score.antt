-- ===== src/Session/Score.antt =====
-- internal/session/risk.go: what the risk score is made of.
use infrafence_agent.Base.{
  ℕ, ◌+◌, ◌*◌, ◌≡◌, refl, ◌∙◌, ap, Bool, true, false, not, ◌&&◌, ◌||◌, List, [], ◌∷◌, String, ltb,
  if◌then◌else◌, min, arith,
}
use infrafence_agent.Base.Keys.{string_key, ◌=?◌}
use infrafence_agent.Session.Risk.{
  Command, SessionData, Patterns, Kind, sudo, useradd, userdel, passwd, crontab, other, kind_of,
  has_root_uid, Tally, add_if, on_sudo, on_command, on_commands, no_tally, at_night, is_unknown,
  on_login, calculate_risk,
}

-- Whether a session has a command of a kind.
abbrev any : (Command → Bool) → List Command → Bool
any f [] = false
any f (c ∷ cs) = f c || any f cs

abbrev is_read : Patterns → Command → Bool
is_read p c = elim (kind_of c) [
  | sudo ↦ p.sensitive_read (p.lower c.command)
  | useradd ↦ false
  | userdel ↦ false
  | passwd ↦ false
  | crontab ↦ false
  | other ↦ false
]

abbrev is_exec : Patterns → Command → Bool
is_exec p c = elim (kind_of c) [
  | sudo ↦ p.remote_exec (p.lower c.command)
  | useradd ↦ false
  | userdel ↦ false
  | passwd ↦ false
  | crontab ↦ false
  | other ↦ false
]

abbrev is_root_user : Command → Bool
is_root_user c = elim (kind_of c) [
  | sudo ↦ false
  | useradd ↦ has_root_uid c
  | userdel ↦ false
  | passwd ↦ false
  | crontab ↦ false
  | other ↦ false
]

abbrev is_kind : Kind → Kind → Bool
is_kind userdel userdel = true
is_kind passwd passwd = true
is_kind crontab crontab = true
is_kind _ _ = false

abbrev pub points : Bool → ℕ → ℕ
points b n = if b then n else 0

-- What the commands are worth, beside the factors that have been added already.
abbrev pub worth : Patterns → List Command → Tally → ℕ
worth p cs t =
    points (not t.sensitive && any (is_read p) cs) 30
    + points (not t.remote && any (is_exec p) cs) 30
    + points (not t.root_user && any is_root_user cs) 25
    + points (not t.deletion && any (λ c. is_kind userdel (kind_of c)) cs) 15
    + points (not t.password && any (λ c. is_kind passwd (kind_of c)) cs) 10
    + points (not t.cron && any (λ c. is_kind crontab (kind_of c)) cs) 10

on_command-worth :
    (p : Patterns) (c : Command) (cs : List Command) (t : Tally)
    → (on_command p c t).score + worth p cs (on_command p c t) ≡ t.score + worth p (c ∷ cs) t
unfolding on_command on_sudo
on_command-worth p c cs t = ground arith

on_commands-worth :
    (p : Patterns) (cs : List Command) (t : Tally)
    → (on_commands p cs t).score ≡ t.score + worth p cs t
unfolding on_commands
on_commands-worth p [] t = ground arith
on_commands-worth p (c ∷ cs) t =
    on_commands-worth p cs (on_command p c t) ∙ on_command-worth p c cs t

-- What the login is worth by itself.
abbrev pub login_worth : SessionData → ℕ
login_worth d =
    points (d.auth_method =? "password") 15
    + points (not d.recurring_automation && is_unknown d) 20
    + points (not d.recurring_automation && at_night d.login_hour) 10

on_login-score : (d : SessionData) → (on_login d no_tally).score ≡ login_worth d
unfolding on_login
on_login-score d = ground arith

worth-add_if :
    (p : Patterns) (cs : List Command) (b : Bool) (n : ℕ) (f : String) (t : Tally)
    → worth p cs (add_if b n f t) ≡ worth p cs t
worth-add_if p cs true n f t = refl
worth-add_if p cs false n f t = refl

worth-on_login :
    (p : Patterns) (cs : List Command) (d : SessionData) (t : Tally)
    → worth p cs (on_login d t) ≡ worth p cs t
unfolding on_login
worth-on_login p cs d t =
    let auto = d.recurring_automation in
    let t1 = add_if auto 0 "recurring_automation" t in
    let t2 = add_if (d.auth_method =? "password") 15 "password_auth" t1 in
    let t3 = add_if (not auto && is_unknown d) 20 "unknown_ip" t2 in
    worth-add_if p cs (not auto && at_night d.login_hour) 10 "night_login" t3
    ∙ worth-add_if p cs (not auto && is_unknown d) 20 "unknown_ip" t2
    ∙ worth-add_if p cs (d.auth_method =? "password") 15 "password_auth" t1
    ∙ worth-add_if p cs auto 0 "recurring_automation" t

capped : (n : ℕ) → (if ltb 100 n then 100 else n) ≡ min 100 n
capped n = ground arith

alerts_worth :
    (auto : Bool) (n : ℕ) (f : String) (t : Tally)
    → (add_if (not auto && ltb 0 n) (40 * n) f t).score ≡ t.score + points (not auto) (40 * n)
alerts_worth auto n f t = ground arith

-- The score is the sum of the factors that apply, at most 100: each factor counts once, however many
-- commands of the session have it, and correlated alerts count 40 each; a recurring automation leaves out
-- the address, the hour and the alerts.
pub calculate_risk_lem :
    (p : Patterns) (d : SessionData)
    → (calculate_risk p d).0
      ≡ min 100 (
          login_worth d
          + worth p d.commands no_tally
          + points (not d.recurring_automation) (40 * d.sigma_alerts))
unfolding calculate_risk
calculate_risk_lem p d =
    let t = on_commands p d.commands (on_login d no_tally) in
    let tally : t.score ≡ login_worth d + worth p d.commands no_tally =
      on_commands-worth p d.commands (on_login d no_tally)
      ∙ ap (λ n. n + worth p d.commands (on_login d no_tally)) (on_login-score d)
      ∙ ap (λ n. login_worth d + n) (worth-on_login p d.commands d no_tally) in
    capped _
    ∙ ap (min 100) (
        alerts_worth d.recurring_automation d.sigma_alerts "sigma_correlation" t
        ∙ ap (λ n. n + points (not d.recurring_automation) (40 * d.sigma_alerts)) tally)
