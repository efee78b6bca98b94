-- ===== src/Bans/Examples.antt =====
-- internal/firewall/bans.go, iptables.go: the registry on small inputs.
use infrafence_agent.Base.{
  ℕ, true, false, not, none, some, List, [], ◌∷◌, String, ◌≡◌, refl, ◌⊎◌, ◌≤◌, ◌<◌, if◌then◌else◌,
}
use infrafence_agent.Base.Dict.{lookup, delete}
use infrafence_agent.Base.Keys.{string_key, ◌=?◌}
use infrafence_agent.Base.Sort.{In, sort_by, insert_by}
use infrafence_agent.Bans.Registry.{
  Entry, Bans, Host, ban_cap, is_safe, enforceable, evictions, delete_all, make_room, expire_bans,
  next_expiry, member, goes_first,
}
use infrafence_agent.Bans.Commands.{
  Ban, after_ban, restorable, banned, ban_until, ban_once_until, restore_bans,
}
use infrafence_agent.Bans.Invariant.{IsHeld}
use infrafence_agent.Bans.Room.{make_room_policy}
use infrafence_agent.Bans.Life.{banning, unbanning, expiring, run_all, run_all-IsHeld}
use infrafence_agent.Bans.Expiry.{expire_bans-next_expiry}
use infrafence_agent.Bans.Effect.{ban_until_lem}

abbrev one : String
one = "198.51.100.1"

abbrev two : String
two = "198.51.100.2"

abbrev three : String
three = "2001:db8::3"

-- A host without ipset, on which an address is its own canonical text.
abbrev host : Host
host = record {
  has_ipset = false;
  reserved = λ ip. ip =? "127.0.0.1";
  local = λ ip. false;
  protected = λ ip. false;
  is_v4 = λ ip. not (ip =? three);
  parse = λ t. if t =? "junk" then none else some t;
}

-- A permanent ban, and two that expire at 9 and at 20.
abbrev held : Bans
held =
    (one, record { added = 5; expires = 0 })
    ∷ (two, record { added = 1; expires = 9 })
    ∷ ("198.51.100.9", record { added = 2; expires = 20 })
    ∷ []

room_test : (make_room host 498 [] held).1 ≡ two ∷ []
unfolding make_room ban_cap evictions delete_all sort_by insert_by goes_first
room_test = refl

safe_test : (ban_until host held "127.0.0.1" 50 10 true).0 ≡ held
unfolding ban_until ban_once_until after_ban is_safe
safe_test = refl

expire_test : (expire_bans held 9).1 ≡ two ∷ []
unfolding expire_bans sort_by insert_by
expire_test = refl

restore_test :
    (restore_bans host []
      (record { ip = two; added = 3; expires = 9 }
        ∷ record { ip = three; added = 3; expires = 0 }
        ∷ [])
      5).1
    ≡ 1
unfolding restore_bans restorable is_safe enforceable ban_cap
restore_test = refl

run_all-IsHeld_example : IsHeld host (
    run_all host
      (restore_bans host [] (record { ip = two; added = 3; expires = 9 } ∷ []) 5).0
      (banning one 0 6 true ∷ expiring 9 ∷ unbanning one ∷ []))
run_all-IsHeld_example =
    run_all-IsHeld host (record { ip = two; added = 3; expires = 9 } ∷ []) 5
      (banning one 0 6 true ∷ expiring 9 ∷ unbanning one ∷ [])

make_room_policy_example :
    (member two [] ≡ false) × (((◌≡◌ {A = ℕ} 20 0) × (0 < 9)) ⊎ ((false ≡ false) × (1 ≤ 2)))
unfolding make_room lookup delete ban_cap evictions delete_all sort_by insert_by goes_first
make_room_policy_example =
    make_room_policy host 498 [] held "198.51.100.9" two (record { added = 2; expires = 20 })
      (record { added = 1; expires = 9 }) (refl, (refl, (refl, tt))) refl refl refl refl

expire_bans-next_expiry_example :
    ((next_expiry held 0 ≡ 0) ⊎ (8 < next_expiry held 0) → expire_bans held 8 ≡ (held, []))
    × ((next_expiry held 0 ≡ 0)
        ⊎ ((e : String × Entry) × In e held × (e.1.expires ≡ next_expiry held 0)))
expire_bans-next_expiry_example = expire_bans-next_expiry held 8

abbrev rows : List Ban
rows =
    record { ip = two; added = 0; expires = 30 } ∷ record { ip = two; added = 0; expires = 25 } ∷ []

ban_until_lem_example :
    (lookup two (ban_until host held two 40 7 true).0 ≡ some (record { added = 1; expires = 40 }))
    × (true ≡ true → ban_once_until host held two 40 7 ≡ (held, banned false []))
unfolding lookup is_safe enforceable
ban_until_lem_example = ban_until_lem host held two two 40 7 refl refl refl true
