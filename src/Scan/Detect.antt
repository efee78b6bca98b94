-- ===== src/Scan/Detect.antt =====
-- internal/scanwatch/analyzer.go: which attempts are reported as a scan of one address.
use infrafence_agent.Base.{
  ℕ, ◌+◌, ◌≤◌, ◌<◌, ◌≡◌, Option, none, some, [], ◌∷◌, String, ltb, leb, length, min, ◌*◌,
  if◌then◌else◌,
}
use infrafence_agent.Base.Dict.{Dict, lookup, insert}
use infrafence_agent.Base.Keys.{string_key, nat_key}
use infrafence_agent.Base.Sort.{IsSorted}
use infrafence_agent.Base.Time.{Time, minute}
use infrafence_agent.Scan.Analyzer.{Tracked, Analyzer, Scan}

-- What is reported of an address that has tried so many ports.
abbrev pub Detects : String → ℕ → Option Scan → Type 0
Detects key n r =
    (n < 15 → r ≡ none)
    × (15 ≤ n
        → (s : Scan) × (r ≡ some s)
          × (s.ip ≡ key)
          × (s.ports ≡ n)
          × (length s.sample ≡ min 20 n)
          × IsSorted ltb s.sample)

-- How many ports an address has tried in the last ten minutes, this attempt included, as far as the
-- analyzer has kept them.
abbrev pub ports_since : Time → Dict ℕ Time → ℕ
ports_since now [] = 0
ports_since now ((q, t) ∷ m) = (if leb now (t + 10 * minute) then 1 else 0) + ports_since now m

abbrev pub ports_of : Option Tracked → Dict ℕ Time
ports_of none = []
ports_of (some tr) = tr.ports

abbrev pub distinct_ports : Analyzer → String → ℕ → Time → ℕ
distinct_ports a key port now = ports_since now (insert port now (ports_of (lookup key a.sources)))
