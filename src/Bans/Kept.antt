-- ===== src/Bans/Kept.antt =====
-- internal/firewall/bans.go, iptables.go: every command leaves the registry in order.
use infrafence_agent.Base.{
  suc, ◌+◌, ◌≤◌, [], ◌∷◌, String, length, ◌≡◌, ap, ◌==◌, refl, arith, Bool-cases, Option-cases, inl,
  inr,
}
use infrafence_agent.Base.Dict.{lookup, has, length-insert}
use infrafence_agent.Base.Keys.{string_key}
use infrafence_agent.Base.Time.{Time}
use infrafence_agent.Bans.Registry.{
  Entry, Bans, Host, ban_cap, is_safe, enforceable, candidates, make_room, claim_ban,
}
use infrafence_agent.Bans.Commands.{ban_once_until, set_expiry, set_one}
use infrafence_agent.Bans.Room.{make_room_fits}
use infrafence_agent.Bans.Invariant.{Bannable, IsHeld, insert-IsHeld, make_room-IsHeld}

length-candidates : (m : Bans) → length (candidates [] m) ≡ length m
length-candidates [] = refl
length-candidates (e ∷ m) = ap suc (length-candidates m)

pub ban_cap_positive : (h : Host) → 1 ≤ ban_cap h
unfolding ban_cap
ban_cap_positive h = ground arith

one_fits : (h : Host) (m : Bans) → IsHeld h m → length (make_room h 1 [] m).0 + 1 ≤ ban_cap h
one_fits h m i =
    make_room_fits h 1 [] m i.distinct (omega (arith, length-candidates m, ban_cap_positive h))

claim_ban-IsHeld :
    (h : Host) (m : Bans) (ip : String) (expires now : Time)
    → Bannable h ip
    → IsHeld h m
    → IsHeld h (claim_ban h m ip expires now).0
unfolding claim_ban
claim_ban-IsHeld h m ip expires now ok i = elim (Bool-cases (has ip m)) [
  | inl t ↦ rw t i
  | inr t ↦
      let b : Entry = record { added = now; expires = expires } in
      let m' = (make_room h 1 [] m).0 in
      let room = one_fits h m i in
      rw t (
        insert-IsHeld h ip b m' ok (ground (arith, room, length-insert ip b m'))
          (make_room-IsHeld h 1 [] m (omega (arith, room)) i))
]

pub ban_once_until-IsHeld :
    (h : Host) (m : Bans) (text : String) (expires now : Time)
    → IsHeld h m
    → IsHeld h (ban_once_until h m text expires now).0
unfolding ban_once_until
ban_once_until-IsHeld h m text expires now i = elim (Option-cases (h.parse text)) [
  | inl n ↦ rw (n, ban_once_until) i
  | inr (ip, q) ↦ elim (Bool-cases (is_safe h ip)) [
    | inl s ↦ rw (q, ban_once_until, s) i
    | inr s ↦ elim (Bool-cases (enforceable h ip)) [
      | inl e ↦ rw (q, ban_once_until, s, e) (claim_ban-IsHeld h m ip expires now (s, e) i)
      | inr e ↦ rw (q, ban_once_until, s, e) i
    ]
  ]
]

pub set_one-IsHeld :
    (h : Host) (m : Bans) (ip : String) (expires now : Time)
    → Bannable h ip
    → length (set_one ip expires now m) ≤ ban_cap h
    → IsHeld h m
    → IsHeld h (set_one ip expires now m)
unfolding set_one
set_one-IsHeld h m ip expires now ok room i = elim (Option-cases (lookup ip m)) [
  | inl n ↦ rw (n, set_one) (insert-IsHeld h ip _ m ok (rw (n, set_one) at room) i)
  | inr (b, q) ↦ rw (q, set_one) (insert-IsHeld h ip _ m ok (rw (q, set_one) at room) i)
]

pub set_expiry-IsHeld :
    (h : Host) (m : Bans) (text : String) (expires : Time)
    → IsHeld h m
    → IsHeld h (set_expiry h m text expires).0
unfolding set_expiry
set_expiry-IsHeld h m text expires i = elim (Option-cases (h.parse text)) [
  | inl n ↦ rw (n, set_expiry) i
  | inr (ip, q) ↦ elim (Option-cases (lookup ip m)) [
    | inl n ↦ rw (q, set_expiry, n) i
    | inr (b, l) ↦ elim (Bool-cases (b.expires == expires)) [
      | inl t ↦ rw (q, set_expiry, l, t) i
      | inr t ↦
          let b' : Entry = record b { expires = expires } in
          rw (q, set_expiry, l, t)
            (insert-IsHeld h ip b' m (i.bannable ip (ground (arith, l)))
              (ground (arith, l, length-insert ip b' m, i.within)) i)
    ]
  ]
]
