-- ===== src/Bans/Capacity.antt =====
-- internal/firewall/bans.go, iptables.go: room for the dashboard's list of bans.
use infrafence_agent.Base.{
  ℕ, suc, ◌+◌, ◌-◌, ◌≤◌, true, false, List, [], ◌∷◌, String, if◌then◌else◌, length, All, ◌≡◌, refl,
  arith, inl, inr, Option-cases,
}
use infrafence_agent.Base.Dict.{Dict, lookup, insert, has, Distinct, lookup-insert, length-insert}
use infrafence_agent.Base.Keys.{string_key, =?-refl}
use infrafence_agent.Base.Time.{Time}
use infrafence_agent.Bans.Registry.{
  Entry, Bans, Host, ban_cap, member, candidates, evictions, addresses, make_room,
}
use infrafence_agent.Bans.Commands.{fresh, keys, set_one, set_all}
use infrafence_agent.Bans.Order.{lookup-delete_all}
use infrafence_agent.Bans.Room.{evictions_not_kept, make_room_fits}

candidates-cons :
    (k : String) (ks : List String) (m : Bans)
    → Distinct m
    → length (candidates ks m) ≤ length (candidates (k ∷ ks) m) + (if has k m then 1 else 0)
unfolding lookup
candidates-cons k ks [] d = omega arith
candidates-cons k ks ((i, w) ∷ m) d =
    ground (arith, candidates-cons k ks m d.1, string_key.beq_iff i k, string_key.beq_iff k i)

-- As many bans stay on account of a list as it has addresses that are banned already.
pub fresh_room :
    (ks : List String) (m : Bans)
    → Distinct m
    → length m + fresh ks m ≤ length (candidates ks m) + length ks
fresh_room [] [] d = omega arith
fresh_room [] (e ∷ m) d = ground (arith, fresh_room [] m d.1)
fresh_room (k ∷ ks) m d = ground (arith, fresh_room ks m d, candidates-cons k ks m d)

not_member :
    (ip : String) (keep : List String) (es : Bans)
    → All (λ e. member e.0 keep ≡ false) es
    → member ip keep ≡ true
    → member ip (addresses es) ≡ false
not_member ip keep [] a h = refl
not_member ip keep ((i, x) ∷ es) a h =
    ground (arith, a.0, not_member ip keep es a.1 h, string_key.beq_iff i ip)

-- Making room leaves the bans to keep as they are.
pub make_room_keeps :
    (h : Host) (n : ℕ) (keep : List String) (bans : Bans) (ip : String)
    → member ip keep ≡ true
    → lookup ip (make_room h n keep bans).0 ≡ lookup ip bans
unfolding make_room
make_room_keeps h n keep bans ip kept =
    let over = length bans + n - ban_cap h in
    ground (
      arith,
      lookup-delete_all ip (addresses (evictions over keep bans)) bans,
      not_member ip keep (evictions over keep bans) (evictions_not_kept over keep bans) kept,
    )

fresh_same :
    (ks : List String) (m m' : Bans)
    → All (λ k. lookup k m' ≡ lookup k m) ks
    → fresh ks m' ≡ fresh ks m
fresh_same [] m m' a = refl
fresh_same (k ∷ ks) m m' a = ground (arith, a.0, fresh_same ks m m' a.1)

All-member-cons :
    (k : String) (ks js : List String)
    → All (λ j. member j ks ≡ true) js
    → All (λ j. member j (k ∷ ks) ≡ true) js
All-member-cons k ks [] a = tt
All-member-cons k ks (j ∷ js) a = (ground (arith, a.0), All-member-cons k ks js a.1)

All-member : (ks : List String) → All (λ k. member k ks ≡ true) ks
All-member [] = tt
All-member (k ∷ ks) = (ground (arith, =?-refl k), All-member-cons k ks ks (All-member ks))

rows_stay :
    (h : Host) (n : ℕ) (keep ks : List String) (bans : Bans)
    → All (λ k. member k keep ≡ true) ks
    → All (λ k. lookup k (make_room h n keep bans).0 ≡ lookup k bans) ks
rows_stay h n keep [] bans a = tt
rows_stay h n keep (k ∷ ks) bans a =
    (make_room_keeps h n keep bans k a.0, rows_stay h n keep ks bans a.1)

pub fresh-make_room :
    (h : Host) (n : ℕ) (ks : List String) (bans : Bans)
    → fresh ks (make_room h n ks bans).0 ≡ fresh ks bans
fresh-make_room h n ks bans =
    fresh_same ks bans (make_room h n ks bans).0 (rows_stay h n ks ks bans (All-member ks))

fresh-insert :
    (ks : List String) (k : String) (b : Entry) (m : Bans) → fresh ks (insert k b m) ≤ fresh ks m
fresh-insert [] k b m = omega arith
fresh-insert (j ∷ ks) k b m = ground (arith, fresh-insert ks k b m, lookup-insert k j b m)

pub length-set_one :
    (ip : String) (e now : Time) (m : Bans)
    → length (set_one ip e now m) ≡ (if has ip m then length m else suc (length m))
unfolding set_one
length-set_one ip e now m = elim (Option-cases (lookup ip m)) [
  | inl n ↦ ground (arith, n, length-insert ip (record { added = now; expires = e }) m)
  | inr (b, q) ↦ ground (arith, q, length-insert ip (record b { expires = e }) m)
]

fresh-set_one :
    (ks : List String) (ip : String) (e now : Time) (m : Bans)
    → fresh ks (set_one ip e now m) ≤ fresh ks m
unfolding set_one
fresh-set_one ks ip e now m = elim (Option-cases (lookup ip m)) [
  | inl n ↦ ground (arith, n, fresh-insert ks ip (record { added = now; expires = e }) m)
  | inr (b, q) ↦ ground (arith, q, fresh-insert ks ip (record b { expires = e }) m)
]

pub length-set_all :
    (rows : Dict String Time) (now : Time) (m : Bans)
    → length (set_all rows now m) ≤ length m + fresh (keys rows) m
unfolding set_all
length-set_all [] now m = omega arith
length-set_all ((ip, e) ∷ rows) now m = ground (
  arith,
  length-set_all rows now (set_one ip e now m),
  length-set_one ip e now m,
  fresh-set_one (keys rows) ip e now m,
)

-- The dashboard's list fits: at most as many rows as the capacity leave the bans within it.
pub apply_fits :
    (h : Host) (rows : Dict String Time) (now : Time) (bans : Bans)
    → Distinct bans
    → length (keys rows) ≤ ban_cap h
    → length (set_all rows now (make_room h (fresh (keys rows) bans) (keys rows) bans).0)
      ≤ ban_cap h
apply_fits h rows now bans d few =
    let n = fresh (keys rows) bans in
    omega (
      arith,
      length-set_all rows now (make_room h n (keys rows) bans).0,
      fresh-make_room h n (keys rows) bans,
      make_room_fits h n (keys rows) bans d (omega (arith, few, fresh_room (keys rows) bans d)),
    )
