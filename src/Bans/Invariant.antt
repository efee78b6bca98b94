-- ===== src/Bans/Invariant.antt =====
-- internal/firewall/bans.go, iptables.go: what every command keeps of the registry.
use infrafence_agent.Base.{ℕ, ◌≤◌, Bool, true, false, List, String, length, ◌≡◌, arith}
use infrafence_agent.Base.Dict.{
  insert, delete, retain, has, Distinct, lookup-insert, lookup-delete, lookup-retain,
  length-retain-le, insert-Distinct, retain-Distinct,
}
use infrafence_agent.Base.Keys.{string_key}
use infrafence_agent.Bans.Registry.{Entry, Bans, Host, ban_cap, is_safe, enforceable, make_room}
use infrafence_agent.Bans.Room.{make_room-Distinct, lookup-make_room}

-- An address that the agent may ban.
abbrev pub Bannable : Host → String → Type 0
Bannable h ip = (is_safe h ip ≡ false) × (enforceable h ip ≡ true)

-- The registry is in order: no address twice, no more bans than the kernel takes, and only addresses
-- that may be banned.
pub record IsHeld (h : Host) (bans : Bans) : Type 0 where
  pub distinct : Distinct bans
  pub within : length bans ≤ ban_cap h
  pub bannable : (ip : String) → has ip bans ≡ true → Bannable h ip

-- A registry whose addresses were held already.
pub part-IsHeld :
    (h : Host) (m m' : Bans)
    → Distinct m'
    → length m' ≤ length m
    → ((ip : String) → has ip m' ≡ true → has ip m ≡ true)
    → IsHeld h m
    → IsHeld h m'
part-IsHeld h m m' d l sub i = record {
  distinct = d;
  within = omega (arith, i.within);
  bannable = λ ip t. i.bannable ip (sub ip t);
}

pub has-delete : (k ip : String) (m : Bans) → has ip (delete k m) ≡ true → has ip m ≡ true
has-delete k ip m t = ground (arith, lookup-delete k ip m)

has-retain :
    (p : String → Entry → Bool) (ip : String) (m : Bans)
    → Distinct m
    → has ip (retain p m) ≡ true
    → has ip m ≡ true
has-retain p ip m d t = ground (arith, lookup-retain p ip m d)

pub retain-IsHeld :
    (h : Host) (p : String → Entry → Bool) (m : Bans) → IsHeld h m → IsHeld h (retain p m)
retain-IsHeld h p m i =
    part-IsHeld h m (retain p m) (retain-Distinct p m i.distinct) (length-retain-le p m)
      (λ ip t. has-retain p ip m i.distinct t) i

-- Adding an address that may be banned, when there is room for it.
pub insert-IsHeld :
    (h : Host) (ip : String) (b : Entry) (m : Bans)
    → Bannable h ip
    → length (insert ip b m) ≤ ban_cap h
    → IsHeld h m
    → IsHeld h (insert ip b m)
insert-IsHeld h ip b m ok room i = record {
  distinct = insert-Distinct ip b m i.distinct;
  within = room;
  bannable =
      λ j t. ground (arith, lookup-insert ip j b m, i.bannable j, string_key.beq_iff ip j, ok);
}

pub make_room-IsHeld :
    (h : Host) (n : ℕ) (keep : List String) (m : Bans)
    → length (make_room h n keep m).0 ≤ ban_cap h
    → IsHeld h m
    → IsHeld h (make_room h n keep m).0
make_room-IsHeld h n keep m fits i = record {
  distinct = make_room-Distinct h n keep m i.distinct;
  within = fits;
  bannable = λ ip t. i.bannable ip (ground (arith, lookup-make_room h n keep m ip));
}
