-- ===== src/Lib.antt =====
-- infrafence-agent: the agent that guards a server for the infrafence dashboard.
--
-- The agent (cmd/infrafence-agent) reports to a dashboard and protects the server it runs on. It asks the
-- dashboard at intervals (internal/api, through the gate of internal/backoff), applies the bans and rules
-- that it gets (internal/firewall), bans by itself what its detectors see (internal/scanwatch,
-- internal/dnswatch, internal/watcher, internal/monitor), keeps its firewall chain in place against other
-- programs (cmd/infrafence-agent/fwguard.go), and looks up countries in a downloaded database
-- (internal/geoip).
--
-- What is modelled, and where:
--   Backoff  internal/backoff/gate.go: Delay.antt has the jitter and the growth of the delay, Reply.antt
--            the answers of the dashboard, Gate.antt the gate's state and operations (New, RestoreClock,
--            SetIdle, Unreachable, RefusedFor, Wait, Refused and OK), and the other files what holds over
--            rounds and histories of calls.
--   Bans     internal/firewall/bans.go and iptables.go: Registry.antt has the table fw.bans with
--            makeRoomLocked, claimBan, ExpireBans and NextBanExpiry, Commands.antt BanIPUntil,
--            BanIPOnceUntil, SetBanExpiry, UnbanIP, IsBanned, RestoreBans, ApplyBans and
--            CleanupStaleBans. A map is a list of keys and values (Base/Dict.antt), an address its
--            canonical text. Life.antt runs sequences of commands.
--   Dns      internal/dnswatch/dnsmsg.go: Wire.antt has readName, Message.antt parseMessage.
--   Firewall internal/firewall: Jumps.antt and First.antt keep the jumps to the agent's chains in place
--            (ensureInputJumps, ensureJumpAheadOf, ensureFirstJump and NeedsRepair of chain.go), over the
--            lines of `iptables -S` in Lines.antt (mayAccept and its tests), and Targets.antt says what
--            can accept a packet; Chain.antt has the contents that the agent wants in its chains
--            (desiredRules, portsEgressRules), and Packets.antt what they do with a packet; ById.antt
--            the dashboard's rules by ID of rules.go (ApplyRuleID, RemoveRuleID, ReconcileRules) and
--            buildRuleArgs, Sync.antt a sync of them from main.go by itself, and Interleaved.antt one
--            with changes of others between all of its calls; Exclude.antt and GeoBlock.antt the
--            blocked countries of geoblock.go (excludeAddrs, addCountry, removeCountry,
--            ApplyCountryBlocks); Threat.antt the threat feeds (ApplyThreatSet, ClearThreatSet and
--            InThreatSet of threatset.go).
--   Geoip    internal/geoip/mmdb.go: Metadata.antt has checkMetadata and checkValue, Tree.antt walkIPv4;
--            geoip.go: Ranges.antt has mergeRanges and rangesToCIDRs, Extract.antt ExtractCIDRs.
--   Guard    cmd/infrafence-agent/fwguard.go: State.antt has the guard's state, its reports and its wait
--            for CSF, Tick.antt one turn of its loop.
--   Monitor  internal/monitor/flood.go: Flood.antt has the flood detector's Scan.
--   Protection
--            cmd/infrafence-agent/refusal.go: Refusal.antt has checkRefusal, disableProtection,
--            enableProtection and restoreRefusal, over the gate of Backoff; Outbox.antt has the outbox
--            of protstate.go (noteLocalBan, noteBanReported, flushLocalBans, localBansToKeep and the
--            loop of restoreBeforeFirewall that loads it), Evictions.antt its evictionReporter.
--   Scan     internal/scanwatch/analyzer.go: Analyzer.antt has Observe and Prune. Networks.antt runs
--            sequences of events.
--   Session  internal/session/risk.go: Risk.antt has CalculateRisk.
--   Watcher  internal/watcher/botscore.go: Scores.antt has AddScore, GetScore and DecayAndCleanup.
--   Base     what they share: Go's times, maps, sorting, strings, and runs that may panic.
-- The Examples file of each part has tests of its definitions, and its theorems at concrete inputs, as do
-- Scenarios, Nations, Feeds and Races of Firewall.
--
-- How the code is rendered. A time is the number of nanoseconds since Go's zero time, so IsZero is the
-- test for 0, and a comparison of a difference is one of sums, since a difference may be negative. The
-- random float of the jitter is r / 2^53 and its product is taken exactly. Where a read outside a
-- slice would panic, the model says so (Base/Run.antt), and a theorem that the code returns says that
-- it does not. A loop whose end is not plain runs on fuel: the names of a DNS message on 300 rounds,
-- which the limits of 255 bytes and of 17 jumps do not reach; the walk of a search tree on two rounds
-- more than it has nodes, each of which is visited once; running out is an outcome of its own, and the
-- theorems exclude it. The depth of checkValue counts down from 33; rangesToCIDRs from the networks
-- that it may still add; trailing zeros are counted on 64 rounds. Products of 64-bit numbers wrap in
-- walkIPv4, and the count of rule changes is below 2^64 by a hypothesis; elsewhere the numbers are
-- bounded far below the machine's. A loop over a map takes its entries in the order of the list.
--
-- What is an argument: the clock, the random numbers, net.ParseIP and the texts of addresses, the
-- local and protected addresses and, for the bans, the reserved ones, strings.ToLower, the regular
-- expressions, the decoded body of an answer, the callback of the walk, the answers of the kernel to
-- the guard, and those of the networks' provider and of the commands that load a country. The commands
-- of iptables that place a jump are a record of functions with laws for what each does on success; the
-- kernel's sets hold what the state lists, a hypothesis of the theorem on packets; and no other
-- program changes a chain between two commands of the agent.
--
-- What is not modelled: of the firewall, Ensure as a whole, the commands that create and fill the sets
-- and chains, RemoveAll, the IPv6 mirror and the settings of CSF; the effect of the dashboard's rules
-- on a packet; the hooks and logs of the registry, and its commands but for whether a ban was applied;
-- locks and goroutines: each change of a table is made under its lock, and a command of two changes
-- (BanIPUntil) is taken without another one between them; HTTP, files and sockets; and the other
-- packages of internal, which scan files, edit configurations or run commands.
pub mod Backoff
pub mod Bans
pub mod Base
pub mod Dns
pub mod Firewall
pub mod Geoip
pub mod Guard
pub mod Monitor
pub mod Protection
pub mod Scan
pub mod Session
pub mod Watcher
