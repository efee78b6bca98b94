-- ===== src/Bans/Rows.antt =====
-- internal/firewall/bans.go, iptables.go: a list of bans, from the dashboard or from the state file.
use infrafence_agent.Base.{
  suc, ◌+◌, ◌≤◌, true, not, ◌&&◌, ◌||◌, List, [], ◌∷◌, String, ltb, if◌then◌else◌, length, take,
  All, ◌≡◌, ap, refl, arith, Bool-cases, Option-cases, ◌⊎◌, inl, inr, length-take,
}
use infrafence_agent.Base.Dict.{Dict, lookup, insert, has, length-insert}
use infrafence_agent.Base.Keys.{string_key, ◌=?◌}
use infrafence_agent.Base.Time.{Time, is_zero, after}
use infrafence_agent.Base.Sort.{sort_by, All-take, All-sort_by}
use infrafence_agent.Bans.Registry.{Entry, Bans, Host, ban_cap, is_safe, enforceable, make_room}
use infrafence_agent.Bans.Commands.{
  Ban, listed, keys, fresh, set_one, set_all, apply_bans, later_expiry, add_unknown, restorable,
  restore_bans, newest_first,
}
use infrafence_agent.Bans.Capacity.{length-set_one, apply_fits}
use infrafence_agent.Bans.Invariant.{Bannable, IsHeld, insert-IsHeld, make_room-IsHeld}
use infrafence_agent.Bans.Kept.{set_one-IsHeld}

AllBannable : Host → Dict String Time → Type 0
AllBannable h rows = All (λ e. Bannable h e.0) rows

insert-AllBannable :
    (h : Host) (ip : String) (e : Time) (rows : Dict String Time)
    → (has ip rows ≡ true) ⊎ Bannable h ip
    → AllBannable h rows
    → AllBannable h (insert ip e rows)
unfolding AllBannable insert lookup
insert-AllBannable h ip e [] ok a = ground (arith, ok)
insert-AllBannable h ip e ((j, f) ∷ rows) ok a = elim (Bool-cases (j =? ip)) [
  | inl t ↦ rw t a
  | inr t ↦ rw t (a.0, insert-AllBannable h ip e rows (rw t at ok) a.1)
]

listed-AllBannable :
    (h : Host) (bs : List Ban) (rows : Dict String Time)
    → AllBannable h rows
    → AllBannable h (listed h bs rows)
unfolding listed
listed-AllBannable h [] rows a = a
listed-AllBannable h (b ∷ bs) rows a = elim (Option-cases (h.parse b.ip)) [
  | inl n ↦ rw n (listed-AllBannable h bs rows a)
  | inr (ip, q) ↦ elim (Bool-cases (is_safe h ip)) [
    | inl s ↦ rw (q, s) (listed-AllBannable h bs rows a)
    | inr s ↦ elim (Option-cases (lookup ip rows)) [
      | inr (e, l) ↦
          let e' = later_expiry e b.expires in
          rw (q, s, l)
            (listed-AllBannable h bs (insert ip e' rows)
              (insert-AllBannable h ip e' rows (inl (ground (arith, l))) a))
      | inl l ↦ elim (Bool-cases (enforceable h ip)) [
        | inl t ↦
            rw (q, s, l, t)
              (listed-AllBannable h bs (insert ip b.expires rows)
                (insert-AllBannable h ip b.expires rows (inr (s, t)) a))
        | inr t ↦ rw (q, s, l, t) (listed-AllBannable h bs rows a)
      ]
    ]
  ]
]

set_all-grows :
    (rows : Dict String Time) (now : Time) (m : Bans) → length m ≤ length (set_all rows now m)
unfolding set_all
set_all-grows [] now m = omega arith
set_all-grows ((ip, e) ∷ rows) now m =
    ground (arith, set_all-grows rows now (set_one ip e now m), length-set_one ip e now m)

set_all-IsHeld :
    (h : Host) (rows : Dict String Time) (now : Time) (m : Bans)
    → AllBannable h rows
    → length (set_all rows now m) ≤ ban_cap h
    → IsHeld h m
    → IsHeld h (set_all rows now m)
unfolding set_all AllBannable
set_all-IsHeld h [] now m a room i = i
set_all-IsHeld h ((ip, e) ∷ rows) now m a room i =
    let m' = set_one ip e now m in
    set_all-IsHeld h rows now m' a.1 room
      (set_one-IsHeld h m ip e now a.0 (omega (arith, room, set_all-grows rows now m')) i)

length-keys : (rows : Dict String Time) → length (keys rows) ≡ length rows
length-keys [] = refl
length-keys (r ∷ rows) = ap suc (length-keys rows)

pub apply_bans-IsHeld :
    (h : Host) (m : Bans) (bs : List Ban) (now : Time)
    → IsHeld h m
    → IsHeld h (apply_bans h m bs now).0
unfolding apply_bans AllBannable
apply_bans-IsHeld h m bs now i =
    let rows = take (ban_cap h) (listed h bs []) in
    let n = fresh (keys rows) m in
    let m' = (make_room h n (keys rows) m).0 in
    let few : length (keys rows) ≤ ban_cap h =
      omega (arith, length-keys rows, length-take {0} (ban_cap h) (listed h bs [])) in
    let fits = apply_fits h rows now m i.distinct few in
    set_all-IsHeld h rows now m'
      (All-take (λ e. Bannable h e.0) (ban_cap h) (listed h bs []) (listed-AllBannable h bs [] tt))
      fits (make_room-IsHeld h n (keys rows) m (omega (arith, fits, set_all-grows rows now m')) i)

nothing_held : {A : Type 0} (ip : String) → has {V = Entry} ip [] ≡ true → A
unfolding lookup
nothing_held ip t = cc t

Restored : Host → List (String × Entry) → Type 0
Restored h es = All (λ e. Bannable h e.0) es

restorable-Restored : (h : Host) (now : Time) (bs : List Ban) → Restored h (restorable h now bs)
unfolding restorable Restored
restorable-Restored h now [] = tt
restorable-Restored h now (b ∷ bs) = elim (Option-cases (h.parse b.ip)) [
  | inl n ↦ rw (n, restorable) (restorable-Restored h now bs)
  | inr (ip, q) ↦
      elim (Bool-cases (
        is_safe h ip
        || (not (is_zero b.expires) && not (after b.expires now))
        || not (enforceable h ip))) [
          | inl t ↦ rw (q, restorable, t) (restorable-Restored h now bs)
          | inr t ↦ rw (q, restorable, t) (ground (arith, t), restorable-Restored h now bs)
        ]
]

add_unknown-IsHeld :
    (h : Host) (es : List (String × Entry)) (m : Bans)
    → Restored h es
    → length m + length es ≤ ban_cap h
    → IsHeld h m
    → IsHeld h (add_unknown es m)
unfolding add_unknown Restored
add_unknown-IsHeld h [] m a room i = i
add_unknown-IsHeld h ((ip, b) ∷ es) m a room i = elim (Bool-cases (has ip m)) [
  | inl t ↦ rw t (add_unknown-IsHeld h es m a.1 (omega (arith, room)) i)
  | inr t ↦
      let size : length (insert ip b m) ≡ suc (length m) =
        ground (arith, t, length-insert ip b m) in
      rw t (
        add_unknown-IsHeld h es (insert ip b m) a.1 (omega (arith, room, size))
          (insert-IsHeld h ip b m a.0 (omega (arith, room, size)) i))
]

kept_room :
    (h : Host) (good : List (String × Entry))
    → Restored h good
    → let kept =
        if ltb (ban_cap h) (length good)
        then take (ban_cap h) (sort_by newest_first good)
        else good in
      Restored h kept × (length kept ≤ ban_cap h)
unfolding Restored
kept_room h good a = elim (Bool-cases (ltb (ban_cap h) (length good))) [
  | inl t ↦ rw t (
    All-take (λ e. Bannable h e.0) (ban_cap h) (sort_by newest_first good)
        (All-sort_by newest_first (λ e. Bannable h e.0) good a),
    omega (arith, length-take {0} (ban_cap h) (sort_by newest_first good)),
  )
  | inr t ↦ rw t (a, ground (arith, t))
]

pub restore_bans-IsHeld :
    (h : Host) (saved : List Ban) (now : Time) → IsHeld h (restore_bans h [] saved now).0
unfolding restore_bans
restore_bans-IsHeld h saved now =
    let k = kept_room h (restorable h now saved) (restorable-Restored h now saved) in
    add_unknown-IsHeld h _ [] k.0 (omega (arith, k.1))
      (record { distinct = tt; within = omega arith; bannable = λ ip t. nothing_held ip t })
