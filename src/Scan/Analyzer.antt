-- ===== src/Scan/Analyzer.antt =====
-- internal/scanwatch/analyzer.go: the analyzer, its observations and its pruning. Addresses and networks
-- are the texts that the net package prints.
use infrafence_agent.Base.{
  ℕ, ◌*◌, Bool, true, not, ◌||◌, Option, none, some, List, [], map, String, ltb, leb, if◌then◌else◌,
  length, take,
}
use infrafence_agent.Base.Dict.{Dict, lookup, insert, delete, retain, has}
use infrafence_agent.Base.Keys.{Key, string_key, nat_key}
use infrafence_agent.Base.Sort.{sort_by}
use infrafence_agent.Base.Time.{Time, Duration, minute, sub_gt, sub_lt}

abbrev pub threshold : ℕ
threshold = 15

abbrev pub window : Duration
window = 10 * minute

abbrev pub network_threshold : ℕ
network_threshold = 30

abbrev pub network_addresses : ℕ
network_addresses = 3

abbrev pub cooldown : Duration
cooldown = 10 * minute

abbrev pub network_cooldown : Duration
network_cooldown = 30 * minute

abbrev pub max_tracked : ℕ
max_tracked = 20000

abbrev pub max_network_ports : ℕ
max_network_ports = 256

-- `Scan`. The scope is the constructor of the report.
pub record Scan : Type 0 where
  pub ip : String
  pub network : String
  pub addresses : ℕ
  pub ports : ℕ
  pub sample : List ℕ

-- `tracked`.
pub record Tracked : Type 0 where
  pub ports : Dict ℕ Time
  pub addrs : Dict String Time
  pub last_seen : Time

-- `Analyzer`, less its lock and its `Skip`.
pub record Analyzer : Type 0 where
  pub sources : Dict String Tracked
  pub networks : Dict String Tracked
  pub reported : Dict String Time
  pub reported_n : Dict String Time

-- `NewAnalyzer`.
abbrev pub new_analyzer : Analyzer
new_analyzer = record { sources = []; networks = []; reported = []; reported_n = [] }

abbrev pub no_track : Tracked
no_track = record { ports = []; addrs = []; last_seen = 0 }

-- The entries seen within the window, which `inWindow` keeps.
abbrev pub recent {ℓ} : {K : Type ℓ} → ⦃e : Key K⦄ → Dict K Time → Time → Dict K Time
recent m now = retain (λ k t. not (sub_gt now t window)) m

-- The ports that `inWindow` returns, sorted.
unfoldable pub in_window : Dict ℕ Time → Time → List ℕ
in_window m now = sort_by ltb (map (λ e. e.0) (recent m now))

-- `sample`.
abbrev pub sample_of : List ℕ → List ℕ
sample_of ports = take 20 ports

abbrev idle : Time → String → Tracked → Bool
idle now k tr = sub_gt now tr.last_seen window

abbrev pub start_over : Dict String Tracked → Dict String Tracked
start_over m = if leb max_tracked (length m) then [] else m

-- `pruneLocked`.
unfoldable pub prune : Analyzer → Time → Bool → Analyzer
prune a now full =
    let sources = retain (λ k tr. not (idle now k tr)) a.sources in
    let networks = retain (λ k tr. not (idle now k tr)) a.networks in
    record {
      sources = if full then start_over sources else sources;
      networks = if full then start_over networks else networks;
      reported = retain (λ k t. not (sub_gt now t cooldown)) a.reported;
      reported_n = retain (λ k t. not (sub_gt now t network_cooldown)) a.reported_n;
    }

-- Room for a new entry: the analyzer is pruned when `full` holds.
abbrev pub room : Analyzer → Time → Bool → Analyzer
room a now full = if full then prune a now true else a

-- The attempt is counted.
abbrev pub tried : ℕ → Time → Tracked → Tracked
tried port now tr = record tr { ports = insert port now tr.ports; last_seen = now }

-- The end of `observeAddress`: the address is reported if it has tried enough ports.
unfoldable pub judge_address : Analyzer → String → Time → Tracked → Analyzer × Option Scan
judge_address a key now tr =
    if ltb (length tr.ports) threshold
    then (record a { sources = insert key tr a.sources }, none)
    else (let kept = recent tr.ports now in
        if ltb (length kept) threshold
        then (record a { sources = insert key (record tr { ports = kept }) a.sources }, none)
        else (
          record a { sources = delete key a.sources; reported = insert key now a.reported },
          some (record {
            ip = key;
            network = "";
            addresses = 0;
            ports = length kept;
            sample = sample_of (in_window tr.ports now);
          }),
        ))

-- The middle of `observeAddress`, behind the cooldown.
unfoldable pub count_address : Analyzer → String → ℕ → Time → Analyzer × Option Scan
count_address a key port now = elim (lookup key a.sources) [
  | some tr ↦ judge_address a key now (tried port now tr)
  | none ↦
      judge_address (room a now (leb max_tracked (length a.sources))) key now
        (tried port now no_track)
]

-- `observeAddress`.
unfoldable pub observe_address : Analyzer → String → ℕ → Time → Analyzer × Option Scan
observe_address a key port now = elim (lookup key a.reported) [
  | none ↦ count_address a key port now
  | some t ↦
      if sub_lt now t cooldown
      then (a, none)
      else count_address (record a { reported = delete key a.reported }) key port now
]

-- An entry is set if it is there or there is room for it.
abbrev pub set_capped {ℓ} : {K : Type ℓ} → ⦃e : Key K⦄ → K → Time → Dict K Time → Dict K Time
set_capped k now m = if has k m || ltb (length m) max_network_ports then insert k now m else m

abbrev pub tried_in : String → ℕ → Time → Tracked → Tracked
tried_in addr port now tr = record {
  ports = set_capped port now tr.ports;
  addrs = set_capped addr now tr.addrs;
  last_seen = now;
}

-- The end of `observeNetwork`.
unfoldable pub judge_network : Analyzer → String → String → Time → Tracked → Analyzer × Option Scan
judge_network a key addr now tr =
    if ltb (length tr.ports) network_threshold || ltb (length tr.addrs) network_addresses
    then (record a { networks = insert key tr a.networks }, none)
    else (let ports = recent tr.ports now in
        let addrs = recent tr.addrs now in
        if ltb (length ports) network_threshold || ltb (length addrs) network_addresses
        then (
          record a {
            networks = insert key (record tr { ports = ports; addrs = addrs }) a.networks;
          },
          none,
        )
        else (
          record a { networks = delete key a.networks; reported_n = insert key now a.reported_n },
          some (record {
            ip = addr;
            network = key;
            addresses = length addrs;
            ports = length ports;
            sample = sample_of (in_window tr.ports now);
          }),
        ))

-- The middle of `observeNetwork`, behind the cooldown.
unfoldable pub count_network : Analyzer → String → String → ℕ → Time → Analyzer × Option Scan
count_network a key addr port now = elim (lookup key a.networks) [
  | some tr ↦ judge_network a key addr now (tried_in addr port now tr)
  | none ↦
      judge_network (room a now (leb max_tracked (length a.networks))) key addr now
        (tried_in addr port now no_track)
]

-- `observeNetwork`.
unfoldable pub observe_network : Analyzer → String → String → ℕ → Time → Analyzer × Option Scan
observe_network a key addr port now = elim (lookup key a.reported_n) [
  | none ↦ count_network a key addr port now
  | some t ↦
      if sub_lt now t network_cooldown
      then (a, none)
      else count_network (record a { reported_n = delete key a.reported_n }) key addr port now
]

-- What the net package says of a source: whether it is skipped, its text, and that of its network.
pub record Source : Type 0 where
  pub skipped : Bool
  pub address : String
  pub network : String

-- `Observe`: a scan by the address, and one by its network.
unfoldable pub observe : Analyzer → Source → ℕ → Time → Analyzer × Option Scan × Option Scan
observe a src port now =
    if src.skipped
    then (a, none, none)
    else (let one = observe_address a src.address port now in
        let two = observe_network one.0 src.network src.address port now in (two.0, one.1, two.1))
