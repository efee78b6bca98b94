-- ===== src/Bans/Commands.antt =====
-- internal/firewall/bans.go, iptables.go: the commands that change the registry. The kernel's side of
-- each (ipset, iptables, the chain's rebuild) and the hooks are left out; whether the command that adds a
-- ban succeeded is an argument where the registry depends on it.
use infrafence_agent.Base.{
  ℕ, suc, Bool, true, false, not, ◌&&◌, ◌||◌, none, some, List, [], ◌∷◌, map, String, ltb, ◌==◌,
  if◌then◌else◌, length, take,
}
use infrafence_agent.Base.Dict.{Dict, lookup, insert, delete, retain, has}
use infrafence_agent.Base.Keys.{string_key}
use infrafence_agent.Base.Sort.{sort_by}
use infrafence_agent.Base.Time.{Time, is_zero, after}
use infrafence_agent.Bans.Registry.{
  Entry, Bans, Host, ban_cap, is_safe, enforceable, make_room, claim_ban,
}

-- What a ban answers.
pub data Answer : Type 0 where
  invalid safe unenforceable : Answer
  banned : Bool → List String → Answer

-- A ban as the dashboard or the state file lists it.
pub record Ban : Type 0 where
  pub ip : String
  pub added : Time
  pub expires : Time

-- `BanIPOnceUntil`.
unfoldable pub ban_once_until : Host → Bans → String → Time → Time → Bans × Answer
ban_once_until h bans text expires now = elim (h.parse text) [
  | none ↦ (bans, invalid)
  | some ip ↦
      if is_safe h ip
      then (bans, safe)
      else if not (enforceable h ip)
      then (bans, unenforceable)
      else (let (bans', added, out) = claim_ban h bans ip expires now in (bans', banned added out))
]

-- `SetBanExpiry`.
unfoldable pub set_expiry : Host → Bans → String → Time → Bans × Bool
set_expiry h bans text expires = elim (h.parse text) [
  | none ↦ (bans, false)
  | some ip ↦ elim (lookup ip bans) [
    | none ↦ (bans, false)
    | some b ↦ (
      if b.expires == expires then bans else insert ip (record b { expires = expires }) bans,
      true,
    )
  ]
]

-- After a ban: of an address that was banned, the expiry changes if the kernel's command succeeded.
unfoldable pub after_ban : Host → String → Time → Bool → Bans × Answer → Bans × Answer
after_ban h text expires true (bans, banned false out) =
    ((set_expiry h bans text expires).0, banned false out)
after_ban h text expires applied r = r

-- `BanIPUntil`: the dashboard's expiry replaces the agent's, unless `applyBan` fails.
unfoldable pub ban_until : Host → Bans → String → Time → Time → Bool → Bans × Answer
unfolding after_ban
ban_until h bans text expires now applied =
    after_ban h text expires applied (ban_once_until h bans text expires now)

-- `UnbanIP`.
unfoldable pub unban : Host → Bans → String → Bans × Bool
unban h bans text = elim (h.parse text) [ none ↦ (bans, false) | some ip ↦ (delete ip bans, true) ]

-- `IsBanned`.
unfoldable pub is_banned : Host → Bans → String → Bool
is_banned h bans text = elim (h.parse text) [ none ↦ false | some ip ↦ has ip bans ]

-- `RestoreBans`: the entries that are left in, with a time of addition that is not in the future.
unfoldable pub restorable : Host → Time → List Ban → List (String × Entry)
restorable h now [] = []
restorable h now (b ∷ bs) =
    let rest = restorable h now bs in
    elim (h.parse b.ip) [
      | none ↦ rest
      | some ip ↦
          if is_safe h ip
            || (not (is_zero b.expires) && not (after b.expires now))
            || not (enforceable h ip)
          then rest
          else (
            ip,
            record {
              added = if is_zero b.added || after b.added now then now else b.added;
              expires = b.expires;
            },
          )
            ∷ rest
    ]

abbrev pub newest_first : String × Entry → String × Entry → Bool
newest_first (i, x) (j, y) = after x.added y.added

unfoldable pub add_unknown : List (String × Entry) → Bans → Bans
add_unknown [] bans = bans
add_unknown ((ip, b) ∷ bs) bans = add_unknown bs (if has ip bans then bans else insert ip b bans)

-- `RestoreBans`: the bans and how many were read. Where two were added at one time the sort may put
-- either first.
unfoldable pub restore_bans : Host → Bans → List Ban → Time → Bans × ℕ
unfolding add_unknown
restore_bans h bans saved now =
    let good = restorable h now saved in
    let kept =
      if ltb (ban_cap h) (length good)
      then take (ban_cap h) (sort_by newest_first good)
      else good in
    (add_unknown kept bans, length kept)

-- The expiry of two rows for one address: the later one, and zero is never.
unfoldable pub later_expiry : Time → Time → Time
later_expiry e f = if not (is_zero e) && (is_zero f || after f e) then f else e

-- The first loop of `ApplyBans`: the addresses in their order, each with its expiry.
unfoldable pub listed : Host → List Ban → Dict String Time → Dict String Time
unfolding later_expiry
listed h [] rows = rows
listed h (b ∷ bs) rows = listed h bs (elim (h.parse b.ip) [
  | none ↦ rows
  | some ip ↦ if is_safe h ip then rows else elim (lookup ip rows) [
    | some e ↦ insert ip (later_expiry e b.expires) rows
    | none ↦ if not (enforceable h ip) then rows else insert ip b.expires rows
  ]
])

abbrev pub keys : Dict String Time → List String
keys = map λ e. e.0

-- How many of the addresses are not banned yet.
abbrev pub fresh : List String → Bans → ℕ
fresh [] bans = 0
fresh (ip ∷ ips) bans = if has ip bans then fresh ips bans else suc (fresh ips bans)

-- The second loop of `ApplyBans`, for one address.
unfoldable pub set_one : String → Time → Time → Bans → Bans
set_one ip expires now bans = elim (lookup ip bans) [
  | none ↦ insert ip (record { added = now; expires = expires }) bans
  | some b ↦ insert ip (record b { expires = expires }) bans
]

unfoldable pub set_all : Dict String Time → Time → Bans → Bans
set_all [] now bans = bans
set_all ((ip, expires) ∷ rows) now bans = set_all rows now (set_one ip expires now bans)

-- `ApplyBans`: the bans and the evicted addresses.
unfoldable pub apply_bans : Host → Bans → List Ban → Time → Bans × List String
unfolding set_all
apply_bans h bans rows now =
    let all = take (ban_cap h) (listed h rows []) in
    let (bans', out) = make_room h (fresh (keys all) bans) (keys all) bans in
    (set_all all now bans', out)

-- `CleanupStaleBans`: the bans that the dashboard still knows.
unfoldable pub cleanup_stale : Bans → (String → Bool) → (String → Bool) → Bans
cleanup_stale bans active_ban active_rule =
    retain (λ ip b. not (not (active_ban ip) && not (active_rule ip))) bans
