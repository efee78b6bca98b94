-- ===== src/Firewall/Exclude.antt =====
-- internal/firewall/geoblock.go: networks without some addresses.
use infrafence_agent.Base.{
  ℕ, zero, suc, ◌+◌, ◌-◌, ◌%◌, ◌^◌, Bool, true, false, ◌&&◌, Option, none, some, List, [], ◌∷◌,
  ◌++◌, ltb, leb, ◌==◌, if◌then◌else◌, any,
}
use infrafence_agent.Firewall.Lines.{Line}
use infrafence_agent.Geoip.Ranges.{Cidr}
use infrafence_agent.Geoip.Cidrs.{in_cidr}

-- A text of the list: an IPv4 network as net.ParseCIDR reads it, or another text, which is kept.
pub data Entry : Type 0 where
  net : Cidr → Entry
  other : Line → Entry

-- `inNet`, in 64 bits.
unfoldable pub in_net : ℕ → ℕ → ℕ → Bool
in_net a base ones = leb base a && ltb a (base + 2 ^ (32 - ones))

-- `appendWithout` of a network of 2 ^ k addresses, so that `ones` is 32 - k. The base is of 32 bits.
unfoldable pub append_without : List Entry → ℕ → ℕ → List ℕ → List Entry
unfolding in_net
append_without out base zero ex =
    if any ex (λ a. in_net a base 32)
    then out
    else out ++ net (record { base = base; ones = 32 }) ∷ []
append_without out base (suc k) ex = elim (any ex (λ a. in_net a base (32 - suc k))) [
  | false ↦ out ++ net (record { base = base; ones = 32 - suc k }) ∷ []
  | true ↦ append_without (append_without out base k ex) ((base + 2 ^ k) % 2 ^ 32) k ex
]

-- The distinct IPv4 addresses among the texts, in their order.
unfoldable pub add_address : List ℕ → Option ℕ → List ℕ
add_address ex none = ex
add_address ex (some a) = if any ex (λ b. b == a) then ex else ex ++ a ∷ []

unfoldable pub addresses : List ℕ → List (Option ℕ) → List ℕ
unfolding add_address
addresses ex [] = ex
addresses ex (ip ∷ ips) = addresses (add_address ex ip) ips

unfoldable pub count_in : Cidr → List ℕ → ℕ
unfolding in_net
count_in c [] = 0
count_in c (a ∷ ex) = (if in_net a c.base c.ones then 1 else 0) + count_in c ex

unfoldable pub exclude_each : List ℕ → List Entry → ℕ → List Entry → List Entry × ℕ
unfolding append_without count_in
exclude_each ex out excluded [] = (out, excluded)
exclude_each ex out excluded (other t ∷ es) = exclude_each ex (out ++ other t ∷ []) excluded es
exclude_each ex out excluded (net c ∷ es) =
    exclude_each ex (append_without out c.base (32 - c.ones) ex) (excluded + count_in c ex) es

unfoldable pub exclude_distinct : List ℕ → List Entry → List Entry × ℕ
unfolding exclude_each
exclude_distinct [] entries = (entries, 0)
exclude_distinct (a ∷ ex) entries = exclude_each (a ∷ ex) [] 0 entries

-- `excludeAddrs`; a text that is no IPv4 address is none.
unfoldable pub exclude_addrs : List Entry → List (Option ℕ) → List Entry × ℕ
unfolding addresses exclude_distinct
exclude_addrs entries ips = exclude_distinct (addresses [] ips) entries

abbrev pub in_entry : ℕ → Entry → Bool
in_entry a (net c) = in_cidr a c
in_entry a (other t) = false

abbrev pub covers : List Entry → ℕ → Bool
covers es a = any es (in_entry a)

-- What `addCountry` loads: the list without the exempt addresses where it held one.
unfoldable pub country_nets : List Entry → List (Option ℕ) → List Entry
unfolding exclude_addrs
country_nets entries ips =
    let (kept, excluded) = exclude_addrs entries ips in if ltb 0 excluded then kept else entries
