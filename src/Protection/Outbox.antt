-- ===== src/Protection/Outbox.antt =====
-- cmd/infrafence-agent/protstate.go: the outbox of the bans that the agent made itself. Times are in
-- seconds since 1970.
use infrafence_agent.Base.{
  ℕ, suc, ◌+◌, Bool, not, ◌&&◌, ◌||◌, Option, none, some, List, [], ◌∷◌, map, String, ltb, leb,
  ◌==◌, if◌then◌else◌, length, select,
}
use infrafence_agent.Base.Dict.{Dict, lookup, insert, delete, retain, has}
use infrafence_agent.Base.Keys.{string_key}
use infrafence_agent.Base.Sort.{sort_by}

-- `pendingBan`; `reported` is zero until the dashboard has accepted the report.
pub record Pending : Type 0 where
  pub ip : String
  pub reason : String
  pub count : ℕ
  pub at : ℕ
  pub reported : ℕ

-- `prot.outbox`.
abbrev pub Outbox : Type 0
Outbox = Dict String Pending

abbrev pub max_ban_outbox : ℕ
max_ban_outbox = 5000

-- `reportedGrace`, in seconds.
abbrev pub reported_grace : ℕ
reported_grace = 600

-- The firewall's key of an address: as net.ParseIP reads it, if it does.
abbrev pub key_of : (String → Option String) → String → String
key_of parse ip = elim (parse ip) [ none ↦ ip | some k ↦ k ]

-- The loop that looks for the oldest ban, with the one found so far.
unfoldable pub oldest_from : String × Pending → Outbox → String × Pending
oldest_from found [] = found
oldest_from found (e ∷ out) = oldest_from (if ltb e.1.at found.1.at then e else found) out

-- Room for one more.
unfoldable pub drop_oldest : Outbox → Outbox
drop_oldest [] = []
drop_oldest (e ∷ out) = delete (oldest_from e out).0 (e ∷ out)

-- `noteLocalBan`.
unfoldable pub note_local_ban : (String → Option String) → Outbox → String → String → ℕ → ℕ → Outbox
note_local_ban parse out ip reason count now =
    let key = key_of parse ip in
    let out' = if leb max_ban_outbox (length out) then drop_oldest out else out in
    insert key (record { ip = key; reason = reason; count = count; at = now; reported = 0 }) out'

-- `noteBanReported`.
unfoldable pub note_ban_reported : (String → Option String) → Outbox → String → ℕ → Outbox
note_ban_reported parse out ip now = elim (lookup (key_of parse ip) out) [
  | none ↦ out
  | some p ↦ insert (key_of parse ip) (record p { reported = now }) out
]

-- The loop of `restoreBeforeFirewall` that loads the outbox: the bans saved whose text is an address, as
-- far as there is room.
unfoldable pub load_outbox : (String → Option String) → List Pending → Outbox → Outbox
load_outbox parse [] out = out
load_outbox parse (p ∷ saved) out = load_outbox parse saved (elim (parse p.ip) [
  | none ↦ out
  | some ip ↦ if ltb (length out) max_ban_outbox then insert ip (record p { ip = ip }) out else out
])

-- The answer of the dashboard to a report: a rejection is its decision, any other error a failure.
pub data Answer : Type 0 where
  taken rejected failed : Answer

-- The loop of `flushLocalBans`: the outbox, how many were sent, and how many dropped.
unfoldable pub flush_loop :
    (String → Option String)
    → (String → Bool)
    → (Pending → Answer)
    → ℕ
    → List Pending
    → Outbox × ℕ × ℕ
    → Outbox × ℕ × ℕ
flush_loop parse in_force report now [] (out, sent, dropped) = (out, sent, dropped)
flush_loop parse in_force report now (p ∷ todo) (out, sent, dropped) =
    if not (in_force p.ip)
    then flush_loop parse in_force report now todo (delete p.ip out, sent, suc dropped)
    else elim (report p) [
      | rejected ↦ flush_loop parse in_force report now todo (delete p.ip out, sent, suc dropped)
      | failed ↦ (out, sent, dropped)
      | taken ↦
          flush_loop parse in_force report now todo
            (note_ban_reported parse out p.ip now, suc sent, dropped)
    ]

-- The bans to report, the oldest first.
unfoldable pub to_report : Outbox → List Pending
to_report out = sort_by (λ p q. ltb p.at q.at) (select (λ p. p.reported == 0) (map (λ e. e.1) out))

-- `flushLocalBans`.
unfoldable pub flush_local_bans :
    (String → Option String) → (String → Bool) → (Pending → Answer) → ℕ → Outbox → Outbox × ℕ × ℕ
flush_local_bans parse in_force report now out =
    flush_loop parse in_force report now (to_report out) (out, 0, 0)

-- Not reported yet, or reported less than the grace ago. A difference may be negative.
abbrev pub is_waiting : ℕ → Pending → Bool
is_waiting now p = p.reported == 0 || ltb now (p.reported + reported_grace)

-- `localBansToKeep`: the outbox, and the addresses that the cleanup must spare.
unfoldable pub local_bans_to_keep : (String → Bool) → ℕ → Outbox → Outbox × (String → Bool)
local_bans_to_keep listed now out =
    let out' = retain (λ ip p. not (listed ip) && is_waiting now p) out in (out', λ ip. has ip out')
