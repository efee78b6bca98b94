-- ===== src/Firewall/Threat.antt =====
-- internal/firewall/threatset.go: the addresses and networks of the threat feeds. A text is the IPv4
-- network that parseNet reads, none where it reads another one or nothing. The addresses that the agent
-- must never block are what is listed: its own (localIPs) and the protected ones.
use infrafence_agent.Base.{
  ℕ, zero, suc, ◌+◌, ◌-◌, ◌/◌, ◌*◌, Bool, true, false, not, ◌&&◌, ◌||◌, Option, none, some, List,
  [], ◌∷◌, ltb, ◌==◌, if◌then◌else◌, any, length,
}
use infrafence_agent.Geoip.Ranges.{Cidr}

abbrev pub min_threat_prefix : ℕ
min_threat_prefix = 8

-- An address without its last bits.
abbrev pub leading : ℕ → ℕ → ℕ
leading a zero = a
leading a (suc k) = leading a k / 2

-- `Contains` of net.IPNet: the bits that the mask keeps are those of the network.
unfoldable pub contains : Cidr → ℕ → Bool
contains n a = leading a (32 - n.ones) == leading n.base (32 - n.ones)

abbrev pub quad : ℕ → ℕ → ℕ → ℕ → ℕ
quad a b c d = ((a * 256 + b) * 256 + c) * 256 + d

-- Loopback, private, link-local, and link-local multicast.
abbrev pub reserved_nets : List Cidr
reserved_nets =
    record { base = quad 127 0 0 0; ones = 8 }
    ∷ record { base = quad 10 0 0 0; ones = 8 }
    ∷ record { base = quad 172 16 0 0; ones = 12 }
    ∷ record { base = quad 192 168 0 0; ones = 16 }
    ∷ record { base = quad 169 254 0 0; ones = 16 }
    ∷ record { base = quad 224 0 0 0; ones = 24 }
    ∷ []

-- `isReservedIP` of an IPv4 address.
unfoldable pub is_reserved : ℕ → Bool
unfolding contains
is_reserved a = any reserved_nets (λ n. contains n a)

-- `locals` and `guarded` are localIPs and protectedList, `keep` the organisation's whitelist.
pub record Safe : Type 0 where
  pub locals : List ℕ
  pub guarded : List ℕ
  pub keep : List Cidr

unfoldable pub covers_safe : Cidr → Safe → Bool
unfolding contains is_reserved
covers_safe n s =
    is_reserved n.base
    || any s.locals (λ a. contains n a && not (is_reserved a))
    || any s.guarded (contains n)
    || any s.keep (λ k. contains n k.base || contains k n.base)

unfoldable pub parsed : List (Option Cidr) → List Cidr
parsed [] = []
parsed (none ∷ es) = parsed es
parsed (some n ∷ es) = n ∷ parsed es

-- `filterThreatNets`: the networks kept, and how many were skipped.
unfoldable pub filter_each : Safe → List (Option Cidr) → List Cidr × ℕ
unfolding covers_safe
filter_each s [] = ([], 0)
filter_each s (none ∷ es) = filter_each s es
filter_each s (some n ∷ es) =
    let (cidrs, skipped) = filter_each s es in
    if ltb n.ones min_threat_prefix || covers_safe n s
    then (cidrs, skipped + 1)
    else (n ∷ cidrs, skipped)

unfoldable pub filter_threat_nets :
    List (Option Cidr) → List (Option Cidr) → List ℕ → List ℕ → List Cidr × ℕ
unfolding filter_each parsed
filter_threat_nets entries keep locals guarded =
    filter_each (record { locals = locals; guarded = guarded; keep = parsed keep }) entries

-- What ipset and the other commands answer: is it there, is protection off, are the networks loaded, is
-- the chain in place.
pub record ThreatAnswers : Type 0 where
  pub has_ipset : Bool
  pub disabled : Bool
  pub loaded : Bool
  pub ensured : Bool

pub data ThreatResult : Type 0 where
  no_ipset : ThreatResult
  off : ThreatResult
  failed : ℕ → ThreatResult
  applied : ℕ → ℕ → ThreatResult

unfoldable pub replace_threat : ThreatAnswers → List Cidr × ℕ → List Cidr → List Cidr × ThreatResult
replace_threat x (cidrs, skipped) threat =
    if not x.loaded
    then (threat, failed skipped)
    else if not x.ensured
    then (cidrs, failed skipped)
    else (cidrs, applied (length cidrs) skipped)

-- `ApplyThreatSet` on fw.threat, where nil is no network.
unfoldable pub apply_threat_set :
    ThreatAnswers
    → List (Option Cidr)
    → List (Option Cidr)
    → List ℕ
    → List ℕ
    → List Cidr
    → List Cidr × ThreatResult
unfolding replace_threat filter_threat_nets
apply_threat_set x entries keep locals guarded threat =
    if not x.has_ipset
    then (threat, no_ipset)
    else if x.disabled
    then (threat, off)
    else replace_threat x (filter_threat_nets entries keep locals guarded) threat

-- `InThreatSet` of an IPv4 address.
unfoldable pub in_threat_set : ℕ → List Cidr → Bool
unfolding contains
in_threat_set a threat = any threat (λ n. contains n a)

abbrev has_networks : List Cidr → Bool
has_networks [] = false
has_networks (n ∷ threat) = true

-- `ClearThreatSet`, and whether the chain and the set in the kernel are to follow.
unfoldable pub clear_threat_set : Bool → List Cidr → List Cidr × Bool
clear_threat_set has_ipset threat = ([], has_networks threat && has_ipset)
