-- ===== src/Firewall/Excluded.antt =====
-- internal/firewall/geoblock.go: what is left of the networks covers the same addresses but the exempt
-- ones.
use infrafence_agent.Base.{
  ℕ, zero, suc, ◌+◌, ◌-◌, ◌%◌, ◌^◌, ◌≤◌, Bool, true, false, not, ◌&&◌, ◌||◌, Option, none, some,
  List, [], ◌∷◌, ◌++◌, ltb, leb, ◌==◌, any, any-append, All, ◌≡◌, refl, ap, ◌∙◌, arith, ==_iff,
  Bool-cases, inl, inr,
}
use native.Mathlib.Nat.{two-pow-succ, one-le-pow}
use infrafence_agent.Geoip.Ranges.{Cidr}
use infrafence_agent.Geoip.Cidrs.{in_cidr}
use infrafence_agent.Firewall.Exclude.{
  Entry, net, other, in_net, append_without, add_address, addresses, count_in, exclude_each,
  exclude_distinct, exclude_addrs, country_nets, in_entry, covers,
}

-- A network that lies within the addresses of IPv4.
abbrev pub IsNet : Entry → Type 0
IsNet (net c) = (c.ones ≤ 32) × (c.base + 2 ^ (32 - c.ones) ≤ 2 ^ 32)
IsNet (other t) = Unit

abbrev pub exempt : List ℕ → ℕ → Bool
exempt ex a = any ex (λ b. b == a)

one-le-pow_two : (k : ℕ) → 1 ≤ 2 ^ k
one-le-pow_two k = one-le-pow k 2 (omega arith)

same_in : (b a base ones : ℕ) → (b == a) ≡ true → in_net b base ones ≡ in_net a base ones
same_in b a base ones h = ap (λ c. in_net c base ones) ((==_iff b a).0 h)

-- No exempt address lies in the network.
missed :
    (ex : List ℕ) (a base ones : ℕ)
    → any ex (λ b. in_net b base ones) ≡ false
    → (in_net a base ones && exempt ex a) ≡ false
missed [] a base ones h = ground arith
missed (b ∷ ex) a base ones h = ground (arith, missed ex a base ones, same_in b a base ones)

back : (k : ℕ) → k ≤ 32 → 32 - (32 - k) ≡ k
back k h = omega arith

-- What a network adds to the list, less the exempt addresses.
abbrev added : List ℕ → ℕ → ℕ → ℕ → Bool
added ex a base k = leb base a && ltb a (base + 2 ^ k) && not (exempt ex a)

kept-covers :
    (ex : List ℕ) (a : ℕ) (out : List Entry) (base k : ℕ)
    → k ≤ 32
    → any ex (λ b. in_net b base (32 - k)) ≡ false
    → covers (out ++ net (record { base = base; ones = 32 - k }) ∷ []) a
      ≡ (covers out a || added ex a base k)
unfolding in_net
kept-covers ex a out base k le h =
    let none_in = missed ex a base (32 - k) h in
    any-append (in_entry a) out (net (record { base = base; ones = 32 - k }) ∷ [])
    ∙ rw (back k le) (ground (arith, rw (back k le) at none_in))

hit_one : (ex : List ℕ) (base : ℕ) → any ex (λ b. in_net b base 32) ≡ true → exempt ex base ≡ true
unfolding in_net
hit_one [] base h = cc
hit_one (b ∷ ex) base h = ground (arith, hit_one ex base)

exempt_one : (ex : List ℕ) (a base : ℕ) → exempt ex base ≡ true → added ex a base 0 ≡ false
exempt_one ex a base h = elim (Bool-cases (base == a)) [
  | inl t ↦ ground (arith, ap (exempt ex) ((==_iff base a).0 t))
  | inr t ↦ ground arith
]

append_without-covers :
    (ex : List ℕ) (a : ℕ) (out : List Entry) (base k : ℕ)
    → k ≤ 32
    → base + 2 ^ k ≤ 2 ^ 32
    → covers (append_without out base k ex) a ≡ (covers out a || added ex a base k)
unfolding append_without
append_without-covers ex a out base zero le fits =
    elim (Bool-cases (any ex (λ b. in_net b base 32))) [
      | inl t ↦ rw t (ground (arith, exempt_one ex a base (hit_one ex base t)))
      | inr t ↦ rw t (kept-covers ex a out base 0 le t)
    ]
append_without-covers ex a out base (suc k) le fits =
    elim (Bool-cases (any ex (λ b. in_net b base (32 - suc k)))) [
      | inr t ↦ rw (t, append_without) (kept-covers ex a out base (suc k) le t)
      | inl t ↦
          let twice = two-pow-succ k in
          let low : (base + 2 ^ k) % 2 ^ 32 ≡ base + 2 ^ k =
            omega (arith, fits, twice, one-le-pow_two k) in
          rw (t, append_without, low)
            (append_without-covers ex a (append_without out base k ex) (base + 2 ^ k) k
                (omega (arith, le)) (omega (arith, fits, twice))
              ∙ ap (λ b. b || added ex a (base + 2 ^ k) k)
                  (append_without-covers ex a out base k (omega (arith, le))
                    (omega (arith, fits, twice, one-le-pow_two k)))
              ∙ ground (arith, twice))
    ]

append_entry-covers :
    (ex : List ℕ) (a : ℕ) (out : List Entry) (c : Cidr)
    → IsNet (net c)
    → covers (append_without out c.base (32 - c.ones) ex) a
      ≡ (covers out a || (in_cidr a c && not (exempt ex a)))
append_entry-covers ex a out c n =
    append_without-covers ex a out c.base (32 - c.ones) (omega arith) n.1

exclude_each-covers :
    (ex : List ℕ) (a : ℕ) (out : List Entry) (n : ℕ) (es : List Entry)
    → All IsNet es
    → covers (exclude_each ex out n es).0 a ≡ (covers out a || (covers es a && not (exempt ex a)))
unfolding exclude_each
exclude_each-covers ex a out n [] v = ground arith
exclude_each-covers ex a out n (other t ∷ es) v = ground (
  arith,
  exclude_each-covers ex a (out ++ other t ∷ []) n es v.1,
  any-append (in_entry a) out (other t ∷ []),
)
exclude_each-covers ex a out n (net c ∷ es) v = ground (
  arith,
  exclude_each-covers ex a (append_without out c.base (32 - c.ones) ex) (n + count_in c ex) es v.1,
  append_entry-covers ex a out c v.0,
)

count_in_none :
    (c : Cidr) (ex : List ℕ) (a : ℕ) → count_in c ex ≡ 0 → (in_cidr a c && exempt ex a) ≡ false
unfolding count_in in_net
count_in_none c [] a h = ground arith
count_in_none c (b ∷ ex) a h = ground (arith, count_in_none c ex a, ==_iff b a)

exclude_each-count :
    (ex : List ℕ) (a : ℕ) (out : List Entry) (n : ℕ) (es : List Entry)
    → (exclude_each ex out n es).1 ≡ 0
    → (n ≡ 0) × ((covers es a && exempt ex a) ≡ false)
unfolding exclude_each
exclude_each-count ex a out n [] h = (h, refl)
exclude_each-count ex a out n (other t ∷ es) h =
    exclude_each-count ex a (out ++ other t ∷ []) n es h
exclude_each-count ex a out n (net c ∷ es) h =
    let (zero_sum, rest) =
      exclude_each-count ex a (append_without out c.base (32 - c.ones) ex) (n + count_in c ex) es
        h in
    (omega (arith, zero_sum), ground (arith, rest, count_in_none c ex a (omega (arith, zero_sum))))

exclude_distinct-covers :
    (ex : List ℕ) (a : ℕ) (es : List Entry)
    → All IsNet es
    → covers (exclude_distinct ex es).0 a ≡ (covers es a && not (exempt ex a))
unfolding exclude_distinct
exclude_distinct-covers [] a es v = ground arith
exclude_distinct-covers (b ∷ ex) a es v = exclude_each-covers (b ∷ ex) a [] 0 es v

exclude_distinct-count :
    (ex : List ℕ) (a : ℕ) (es : List Entry)
    → (exclude_distinct ex es).1 ≡ 0
    → (covers es a && exempt ex a) ≡ false
unfolding exclude_distinct
exclude_distinct-count [] a es h = ground arith
exclude_distinct-count (b ∷ ex) a es h = (exclude_each-count (b ∷ ex) a [] 0 es h).1

-- One of the texts is this address.
abbrev pub is_address : ℕ → Option ℕ → Bool
is_address a none = false
is_address a (some b) = b == a

exempt_same : (b a : ℕ) (ex : List ℕ) → (b == a) ≡ true → exempt ex b ≡ exempt ex a
exempt_same b a ex h = ap (exempt ex) ((==_iff b a).0 h)

addresses-exempt :
    (ex : List ℕ) (ips : List (Option ℕ)) (a : ℕ)
    → exempt (addresses ex ips) a ≡ (exempt ex a || any ips (is_address a))
unfolding addresses add_address
addresses-exempt ex [] a = ground arith
addresses-exempt ex (none ∷ ips) a = addresses-exempt ex ips a
addresses-exempt ex (some b ∷ ips) a = elim (Bool-cases (exempt ex b)) [
  | inl t ↦ rw (t, addresses) (ground (arith, addresses-exempt ex ips a, exempt_same b a ex, t))
  | inr t ↦
      rw (t, addresses)
        (ground
          (arith, addresses-exempt (ex ++ b ∷ []) ips a, any-append (λ c. c == a) ex (b ∷ [])))
]

-- The networks that are loaded for a country cover its addresses, except the exempt ones.
pub country_nets-covers :
    (entries : List Entry) (ips : List (Option ℕ)) (a : ℕ)
    → All IsNet entries
    → covers (country_nets entries ips) a ≡ (covers entries a && not (any ips (is_address a)))
unfolding country_nets exclude_addrs
country_nets-covers entries ips a v = ground (
  arith,
  exclude_distinct-covers (addresses [] ips) a entries v,
  exclude_distinct-count (addresses [] ips) a entries,
  addresses-exempt [] ips a,
)
