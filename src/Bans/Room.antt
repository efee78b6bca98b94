-- ===== src/Bans/Room.antt =====
-- internal/firewall/bans.go: which bans make room, and that there is room afterwards.
use infrafence_agent.Base.{
  ℕ, ◌+◌, ◌-◌, ◌≤◌, ◌<◌, true, false, not, none, some, List, [], ◌∷◌, String, leb, if◌then◌else◌,
  length, take, drop, All, ◌≡◌, arith, Bool-cases, ◌⊎◌, inl, inr, min, length-take, ◌∙◌, subst, ap,
  sym,
}
use infrafence_agent.Base.Dict.{lookup, Distinct}
use infrafence_agent.Base.Keys.{string_key, =?-cases}
use infrafence_agent.Base.Sort.{
  sort_by, In, In-All, In-take-drop, All-map, All-take, All-sort_by, In-sort_by, sort_by-IsSorted,
  IsSorted-split, length-sort_by,
}
use infrafence_agent.Base.Time.{is_zero}
use infrafence_agent.Bans.Registry.{
  Entry, Bans, Host, ban_cap, goes_first, member, candidates, delete_all, evictions, addresses,
  make_room,
}
use infrafence_agent.Bans.Order.{
  goes_first_asym, goes_first_ordered, lookup-delete_all, delete_all-Distinct, Present,
  length-delete_all, held_itself, In-lookup, In-select, All-select, All-select_of,
}
use infrafence_agent.Bans.Unique.{select-Distinct, take-Distinct, sort_by-Distinct}

module _ (over : ℕ) (keep : List String) (bans : Bans) where
  evictions-Distinct : Distinct bans → Distinct (evictions over keep bans)
  unfolding evictions
  evictions-Distinct d =
      take-Distinct over (sort_by goes_first (candidates keep bans))
        (sort_by-Distinct goes_first (candidates keep bans) (select-Distinct _ bans d))

  evictions-Present : Distinct bans → Present bans (evictions over keep bans)
  unfolding evictions
  evictions-Present d =
      All-take (λ e. lookup e.0 bans ≡ some e.1) over (sort_by goes_first (candidates keep bans))
        (All-sort_by goes_first (λ e. lookup e.0 bans ≡ some e.1) (candidates keep bans)
          (All-select_of _ _ bans (held_itself bans d)))

  pub evictions_not_kept : All (λ e. member e.0 keep ≡ false) (evictions over keep bans)
  unfolding evictions
  evictions_not_kept = All-take _ over (sort_by goes_first (candidates keep bans)) (
      All-sort_by goes_first (λ e. member e.0 keep ≡ false) (candidates keep bans)
        (All-select _ (λ e. not (member e.0 keep)) bans (λ e t. ground arith)))

  -- A ban that may go and stays does not come before one that goes.
  evictions_first :
      (e : String × Entry)
      → In e (candidates keep bans)
      → In e (evictions over keep bans)
        ⊎ All (λ x. goes_first e x ≡ false) (evictions over keep bans)
  unfolding evictions
  evictions_first e h =
      let sorted = sort_by goes_first (candidates keep bans) in
      elim (In-take-drop over e sorted (In-sort_by goes_first e (candidates keep bans) h)) [
        | inl k ↦ inl k
        | inr k ↦ inr (
            All-map _ (λ x. goes_first e x ≡ false) (take over sorted)
              (λ x a. In-All (λ y. goes_first y x ≡ false) e (drop over sorted) a k)
              (IsSorted-split goes_first over sorted (
                sort_by-IsSorted goes_first goes_first_asym goes_first_ordered
                  (candidates keep bans))))
      ]

  pub length-evictions :
      length (evictions over keep bans) ≡ min over (length (candidates keep bans))
  unfolding evictions
  length-evictions = omega (
    arith,
    length-take {0} over (sort_by goes_first (candidates keep bans)),
    length-sort_by goes_first (candidates keep bans),
  )

member-addresses :
    (ip : String) (P : String × Entry → Type 0) (m es : Bans) (b : Entry)
    → lookup ip m ≡ some b
    → Present m es
    → All P es
    → member ip (addresses es) ≡ true
    → P (ip, b)
member-addresses ip P m [] b l p a h = cc
member-addresses ip P m ((i, x) ∷ es) b l p a h = elim (=?-cases i ip) [
  | inl (t, e) ↦
      let same : some x ≡ some b = sym (rw e at p.0) ∙ l in
      let pair : (ip, x) ≡ (ip, b) = ground arith in subst P pair (subst (λ j. P (j, x)) e a.0)
  | inr (t, n) ↦ member-addresses ip P m es b l p.1 a.1 (rw t at h)
]

In-member : (ip : String) (b : Entry) (es : Bans) → In (ip, b) es → member ip (addresses es) ≡ true
In-member ip b [] h = absurd h
In-member ip b ((i, x) ∷ es) (inl e) =
    ground (arith, ap (λ (p : String × Entry). p.0) e, string_key.beq_iff i ip)
In-member ip b ((i, x) ∷ es) (inr h) = ground (arith, In-member ip b es h)

pub make_room-Distinct :
    (h : Host) (n : ℕ) (keep : List String) (bans : Bans)
    → Distinct bans
    → Distinct (make_room h n keep bans).0
unfolding make_room
make_room-Distinct h n keep bans d = elim (Bool-cases (leb (length bans + n) (ban_cap h))) [
  | inl t ↦ rw t d
  | inr t ↦
      rw t
        (delete_all-Distinct (addresses (evictions (length bans + n - ban_cap h) keep bans)) bans d)
]

-- What making room leaves of each address.
pub lookup-make_room :
    (h : Host) (n : ℕ) (keep : List String) (bans : Bans) (ip : String)
    → lookup ip (make_room h n keep bans).0
      ≡ (if member ip (make_room h n keep bans).1 then none else lookup ip bans)
unfolding make_room
lookup-make_room h n keep bans ip = ground (
  arith,
  lookup-delete_all ip (addresses (evictions (length bans + n - ban_cap h) keep bans)) bans,
)

-- There is room for the new bans, if there is once all that may go is gone.
pub make_room_fits :
    (h : Host) (n : ℕ) (keep : List String) (bans : Bans)
    → Distinct bans
    → length bans + n ≤ ban_cap h + length (candidates keep bans)
    → length (make_room h n keep bans).0 + n ≤ ban_cap h
unfolding make_room
make_room_fits h n keep bans d room = elim (Bool-cases (leb (length bans + n) (ban_cap h))) [
  | inl t ↦ rw t (ground arith)
  | inr t ↦
      let over = length bans + n - ban_cap h in
      let much : ban_cap h < length bans + n = ground arith in
      rw t (
        omega (
          arith,
          much,
          length-evictions over keep bans,
          length-delete_all (evictions over keep bans) bans d (evictions-Distinct over keep bans d)
              (evictions-Present over keep bans d),
        ))
]

-- A ban that may go and stays, against one that goes.
pub make_room_order :
    (h : Host) (n : ℕ) (keep : List String) (bans : Bans) (ip gone : String) (b x : Entry)
    → Distinct bans
    → lookup ip (make_room h n keep bans).0 ≡ some b
    → member ip keep ≡ false
    → member gone (make_room h n keep bans).1 ≡ true
    → lookup gone bans ≡ some x
    → (member gone keep ≡ false) × (goes_first (ip, b) (gone, x) ≡ false)
unfolding make_room
make_room_order h n keep bans ip gone b x d stays free goes was =
    elim (Bool-cases (leb (length bans + n) (ban_cap h))) [
      | inl t ↦ cc (rw t at goes)
      | inr t ↦
          let over = length bans + n - ban_cap h in
          let es = evictions over keep bans in
          let present = evictions-Present over keep bans d in
          let out : member gone (addresses es) ≡ true = rw t at goes in
          let left : lookup ip (delete_all (addresses es) bans) ≡ some b = rw t at stays in
          let here : (member ip (addresses es) ≡ false) × (lookup ip bans ≡ some b) =
            ground (arith, lookup-delete_all ip (addresses es) bans) in
          let candidate =
            In-select (λ e. not (member e.0 keep)) (ip, b) bans (In-lookup ip b bans here.1)
              (ground arith) in
          (
            member-addresses gone (λ e. member e.0 keep ≡ false) bans es x was present
                (evictions_not_kept over keep bans) out,
            elim (evictions_first over keep bans (ip, b) candidate) [
              | inl k ↦ cc (In-member ip b es k)
              | inr a ↦
                  member-addresses gone (λ e. goes_first (ip, b) e ≡ false) bans es x was present a
                    out
            ],
          )
    ]

-- Making room evicts none of the bans to keep, and the right ones of the others: a ban that stays is
-- either permanent while the evicted one expires, or of the same kind and not older.
pub make_room_policy :
    (h : Host) (n : ℕ) (keep : List String) (bans : Bans) (ip gone : String) (b x : Entry)
    → Distinct bans
    → lookup ip (make_room h n keep bans).0 ≡ some b
    → member ip keep ≡ false
    → member gone (make_room h n keep bans).1 ≡ true
    → lookup gone bans ≡ some x
    → (member gone keep ≡ false)
      × (((b.expires ≡ 0) × (0 < x.expires))
          ⊎ ((is_zero b.expires ≡ is_zero x.expires) × (x.added ≤ b.added)))
unfolding goes_first
make_room_policy h n keep bans ip gone b x d stays free goes was =
    ground (arith, make_room_order h n keep bans ip gone b x d stays free goes was)
