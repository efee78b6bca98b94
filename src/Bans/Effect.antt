-- ===== src/Bans/Effect.antt =====
-- internal/firewall/iptables.go: what a ban and the dashboard's list do to each address.
use infrafence_agent.Base.{
  Bool, true, false, not, ◌||◌, Option, none, some, List, [], String, ◌==◌, is_some, if◌then◌else◌,
  take, ◌≡◌, refl, arith, Bool-cases, inl, inr, ◌∙◌, ap,
}
use infrafence_agent.Base.Dict.{Dict, lookup, insert, has, lookup-insert}
use infrafence_agent.Base.Keys.{string_key, =?-refl}
use infrafence_agent.Base.Time.{Time}
use infrafence_agent.Bans.Registry.{
  Entry, Bans, Host, ban_cap, is_safe, enforceable, make_room, claim_ban,
}
use infrafence_agent.Bans.Commands.{
  Ban, banned, ban_once_until, set_expiry, after_ban, ban_until, listed,
}

-- An entry with another expiry; a new one is added now.
abbrev pub with_expiry : Time → Time → Option Entry → Entry
with_expiry now expires none = record { added = now; expires = expires }
with_expiry now expires (some b) = record b { expires = expires }

-- What the list says of an address.
listed_entry : Time → Option Time → Option Entry → Option Entry
listed_entry now none o = o
listed_entry now (some e) o = some (with_expiry now e o)

-- The list that the dashboard sends, as far as the capacity goes.
abbrev pub rows_of : Host → List Ban → Dict String Time
rows_of h bs = take (ban_cap h) (listed h bs [])

module _ (h : Host) (m : Bans) (text ip : String) (expires now : Time) (q : h.parse text ≡ some ip)
    (s : is_safe h ip ≡ false) (e : enforceable h ip ≡ true) where
  ban_known : has ip m ≡ true → ban_once_until h m text expires now ≡ (m, banned false [])
  unfolding ban_once_until claim_ban
  ban_known t = rw (q, ban_once_until, s, e, t) refl

  ban_new :
      has ip m ≡ false
      → ban_once_until h m text expires now ≡ (
        insert ip (with_expiry now expires none) (make_room h 1 [] m).0,
        banned true (make_room h 1 [] m).1,
      )
  unfolding ban_once_until claim_ban
  ban_new t = rw (q, ban_once_until, s, e, t) refl

  expiry_set :
      (b : Entry)
      → lookup ip m ≡ some b
      → lookup ip (set_expiry h m text expires).0 ≡ some (record b { expires = expires })
  unfolding set_expiry
  expiry_set b l = elim (Bool-cases (b.expires == expires)) [
    | inl t ↦ ground (arith, q, l, t)
    | inr t ↦
        rw (q, set_expiry, l, t)
          (lookup-insert ip ip (record b { expires = expires }) m ∙ rw (=?-refl ip) refl)
  ]

  after_ban_set :
      (o : Option Entry) (applied : Bool)
      → lookup ip m ≡ o
      → lookup ip (after_ban h text expires applied (ban_once_until h m text expires now)).0
        ≡ (if applied || not (is_some o) then some (with_expiry now expires o) else o)
  unfolding after_ban
  after_ban_set none true l = rw (ban_new (ap is_some l)) (
      lookup-insert ip ip (with_expiry now expires none) (make_room h 1 [] m).0
      ∙ rw (=?-refl ip) refl)
  after_ban_set none false l = rw (ban_new (ap is_some l)) (
      lookup-insert ip ip (with_expiry now expires none) (make_room h 1 [] m).0
      ∙ rw (=?-refl ip) refl)
  after_ban_set (some b) true l = rw (ban_known (ap is_some l)) (expiry_set b l)
  after_ban_set (some b) false l = rw (ban_known (ap is_some l)) l

  -- A ban of an address that may be banned is in force with the new expiry, and keeps the time since
  -- when it was if it was banned before; where the kernel's command fails, an address that was banned
  -- keeps its expiry too. A ban through `ban_once_until` leaves a ban in force as it is, and says so.
  pub ban_until_lem :
      (applied : Bool)
      → (lookup ip (ban_until h m text expires now applied).0 ≡ (
          if applied || not (has ip m)
          then some (with_expiry now expires (lookup ip m))
          else lookup ip m))
        × (has ip m ≡ true → ban_once_until h m text expires now ≡ (m, banned false []))
  unfolding ban_until
  ban_until_lem applied = (after_ban_set (lookup ip m) applied refl, ban_known)
