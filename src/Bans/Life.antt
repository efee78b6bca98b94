-- ===== src/Bans/Life.antt =====
-- internal/firewall/bans.go, iptables.go: the registry over a sequence of commands.
use infrafence_agent.Base.{Bool, true, false, List, [], ◌∷◌, String, Option-cases, inl, inr}
use infrafence_agent.Base.Dict.{delete, length-delete-le, delete-Distinct}
use infrafence_agent.Base.Keys.{string_key}
use infrafence_agent.Base.Time.{Time}
use infrafence_agent.Bans.Registry.{Bans, Host, expire_bans}
use infrafence_agent.Bans.Commands.{
  Ban, Answer, ban_once_until, set_expiry, ban_until, unban, cleanup_stale, apply_bans, after_ban,
  restore_bans, invalid, safe, unenforceable, banned,
}
use infrafence_agent.Bans.Invariant.{IsHeld, part-IsHeld, has-delete, retain-IsHeld}
use infrafence_agent.Bans.Rows.{apply_bans-IsHeld, restore_bans-IsHeld}
use infrafence_agent.Bans.Kept.{ban_once_until-IsHeld, set_expiry-IsHeld}

ban_until-IsHeld :
    (h : Host) (m : Bans) (text : String) (expires now : Time) (applied : Bool)
    → IsHeld h m
    → IsHeld h (ban_until h m text expires now applied).0
unfolding ban_until after_ban
ban_until-IsHeld h m text expires now applied i =
    answered applied (ban_once_until h m text expires now)
      (ban_once_until-IsHeld h m text expires now i)
  where
    answered :
        (b : Bool) (r : Bans × Answer) → IsHeld h r.0 → IsHeld h (after_ban h text expires b r).0
    answered true (m', banned false out) j = set_expiry-IsHeld h m' text expires j
    answered true (m', banned true out) j = j
    answered true (m', invalid) j = j
    answered true (m', safe) j = j
    answered true (m', unenforceable) j = j
    answered false r j = j

unban-IsHeld : (h : Host) (m : Bans) (text : String) → IsHeld h m → IsHeld h (unban h m text).0
unfolding unban
unban-IsHeld h m text i = elim (Option-cases (h.parse text)) [
  | inl n ↦ rw (n, unban) i
  | inr (ip, q) ↦
      rw (q, unban)
        (part-IsHeld h m (delete ip m) (delete-Distinct ip m i.distinct) (length-delete-le ip m)
          (λ j t. has-delete ip j m t) i)
]

-- One command on the registry. A ban by the dashboard says whether the kernel's command succeeded.
pub data Command : Type 0 where
  banning : String → Time → Time → Bool → Command
  banning_once : String → Time → Time → Command
  expiring : Time → Command
  changing : String → Time → Command
  unbanning : String → Command
  applying : List Ban → Time → Command
  cleaning : (String → Bool) → (String → Bool) → Command

unfoldable pub run_one : Host → Bans → Command → Bans
run_one h m (banning ip e now applied) = (ban_until h m ip e now applied).0
run_one h m (banning_once ip e now) = (ban_once_until h m ip e now).0
run_one h m (expiring now) = (expire_bans m now).0
run_one h m (changing ip e) = (set_expiry h m ip e).0
run_one h m (unbanning ip) = (unban h m ip).0
run_one h m (applying bs now) = (apply_bans h m bs now).0
run_one h m (cleaning a r) = cleanup_stale m a r

unfoldable pub run_all : Host → Bans → List Command → Bans
run_all h m [] = m
run_all h m (c ∷ cs) = run_all h (run_one h m c) cs

run_one-IsHeld : (h : Host) (m : Bans) (c : Command) → IsHeld h m → IsHeld h (run_one h m c)
unfolding run_one expire_bans cleanup_stale
run_one-IsHeld h m (banning ip e now applied) i = ban_until-IsHeld h m ip e now applied i
run_one-IsHeld h m (banning_once ip e now) i = ban_once_until-IsHeld h m ip e now i
run_one-IsHeld h m (expiring now) i = retain-IsHeld h _ m i
run_one-IsHeld h m (changing ip e) i = set_expiry-IsHeld h m ip e i
run_one-IsHeld h m (unbanning ip) i = unban-IsHeld h m ip i
run_one-IsHeld h m (applying bs now) i = apply_bans-IsHeld h m bs now i
run_one-IsHeld h m (cleaning a r) i = retain-IsHeld h _ m i

run_all-IsHeld_from :
    (h : Host) (m : Bans) (cs : List Command) → IsHeld h m → IsHeld h (run_all h m cs)
unfolding run_all
run_all-IsHeld_from h m [] i = i
run_all-IsHeld_from h m (c ∷ cs) i =
    run_all-IsHeld_from h (run_one h m c) cs (run_one-IsHeld h m c i)

-- After a restart that restores any saved bans, and any commands after it, no address is in the
-- registry twice, there are at most 65000 bans with ipset and 500 without, and every banned address is
-- one that may be banned: neither reserved, local nor protected, and one the host can block.
pub run_all-IsHeld :
    (h : Host) (saved : List Ban) (now : Time) (cs : List Command)
    → IsHeld h (run_all h (restore_bans h [] saved now).0 cs)
run_all-IsHeld h saved now cs =
    run_all-IsHeld_from h (restore_bans h [] saved now).0 cs (restore_bans-IsHeld h saved now)
