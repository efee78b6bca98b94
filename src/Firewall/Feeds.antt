-- ===== src/Firewall/Feeds.antt =====
-- internal/firewall/threatset.go: tests of the threat set, and its theorems at concrete inputs.
use infrafence_agent.Base.{ℕ, ◌&&◌, true, false, Option, none, some, List, [], ◌∷◌, ◌≡◌, refl}
use infrafence_agent.Geoip.Ranges.{Cidr}
use infrafence_agent.Firewall.Threat.{
  quad, contains, is_reserved, covers_safe, filter_each, filter_threat_nets, parsed, ThreatAnswers,
  applied, apply_threat_set, replace_threat, in_threat_set, clear_threat_set,
}
use infrafence_agent.Firewall.Filtered.{IsApplied, apply_threat_set-IsApplied}

abbrev cidr : ℕ → ℕ → Cidr
cidr base ones = record { base = base; ones = ones }

abbrev all_well : ThreatAnswers
all_well = record { has_ipset = true; disabled = false; loaded = true; ensured = true }

-- A network around the dashboard, a good one, one that is no IPv4 network, one too wide, and one within a
-- network to be kept.
abbrev entries : List (Option Cidr)
entries =
    some (cidr (quad 203 0 113 0) 24)
    ∷ some (cidr (quad 198 51 100 0) 25)
    ∷ none
    ∷ some (cidr (quad 64 0 0 0) 7)
    ∷ some (cidr (quad 192 0 2 16) 28)
    ∷ []

abbrev whitelist : List (Option Cidr)
whitelist = none ∷ some (cidr (quad 192 0 2 0) 24) ∷ []

abbrev guarded : List ℕ
guarded = quad 203 0 113 7 ∷ []

entries-applied :
    apply_threat_set all_well entries whitelist [] guarded []
    ≡ (cidr (quad 198 51 100 0) 25 ∷ [], applied 1 3)
unfolding apply_threat_set replace_threat filter_threat_nets filter_each covers_safe is_reserved
    contains parsed
entries-applied = refl

-- The network 172.0.0.0/8 passes, and holds the private address 172.16.0.1.
wide-in_threat_set :
    in_threat_set
        (quad 172 16 0 1)
        (apply_threat_set all_well (some (cidr (quad 172 0 0 0) 8) ∷ []) [] [] [] []).0
      && is_reserved (quad 172 16 0 1)
    ≡ true
unfolding apply_threat_set replace_threat filter_threat_nets filter_each covers_safe is_reserved
    contains parsed in_threat_set
wide-in_threat_set = refl

entries-cleared :
    (clear_threat_set true (cidr (quad 198 51 100 0) 25 ∷ []) ≡ ([], true))
    × (clear_threat_set true [] ≡ ([], false))
    × (clear_threat_set false (cidr (quad 198 51 100 0) 25 ∷ []) ≡ ([], false))
unfolding clear_threat_set
entries-cleared = (refl, refl, refl)

apply_threat_set-IsApplied_example :
    IsApplied
      (record { locals = []; guarded = guarded; keep = parsed whitelist })
      (quad 203 0 113 7)
      entries
      (apply_threat_set all_well entries whitelist [] guarded [])
apply_threat_set-IsApplied_example =
    apply_threat_set-IsApplied all_well entries whitelist [] guarded [] (quad 203 0 113 7) refl
