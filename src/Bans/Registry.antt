-- ===== src/Bans/Registry.antt =====
-- internal/firewall/bans.go: the ban registry, and how it makes room. An address is its canonical text,
-- as net.IP prints it.
use infrafence_agent.Base.{
  ℕ, ◌+◌, ◌-◌, Bool, true, false, not, ◌&&◌, ◌||◌, Option, List, [], ◌∷◌, map, String, leb, ◌==◌,
  if◌then◌else◌, length, take, select,
}
use infrafence_agent.Base.Dict.{Dict, insert, delete, retain, has}
use infrafence_agent.Base.Keys.{string_key, ◌=?◌}
use infrafence_agent.Base.Sort.{sort_by}
use infrafence_agent.Base.Text.{codes, lex_lt}
use infrafence_agent.Base.Time.{Time, is_zero, before, after}

-- `banEntry`; an expiry of zero is a permanent ban.
pub record Entry : Type 0 where
  pub added : Time
  pub expires : Time

-- `fw.bans`.
abbrev pub Bans : Type 0
Bans = Dict String Entry

-- What the registry asks of the host: whether ipset is there, which addresses are reserved, local or
-- protected, which are IPv4, and the canonical address that a text stands for (net.ParseIP).
pub record Host : Type 0 where
  pub has_ipset : Bool
  pub reserved : String → Bool
  pub local : String → Bool
  pub protected : String → Bool
  pub is_v4 : String → Bool
  pub parse : String → Option String

abbrev pub ipset_ban_cap : ℕ
ipset_ban_cap = 65000

abbrev pub iptables_ban_cap : ℕ
iptables_ban_cap = 500

-- `banCap`.
unfoldable pub ban_cap : Host → ℕ
ban_cap h = if h.has_ipset then ipset_ban_cap else iptables_ban_cap

-- `isSafeIP`.
unfoldable pub is_safe : Host → String → Bool
is_safe h ip = h.reserved ip || h.local ip || h.protected ip

-- `enforceable`.
unfoldable pub enforceable : Host → String → Bool
enforceable h ip = h.is_v4 ip || h.has_ipset

-- The order in which bans make room: those that expire first, and the oldest of them.
unfoldable pub goes_first : String × Entry → String × Entry → Bool
goes_first (i, x) (j, y) =
    if is_zero x.expires && not (is_zero y.expires)
    then false
    else if not (is_zero x.expires) && is_zero y.expires
    then true
    else if not (x.added == y.added)
    then before x.added y.added
    else lex_lt (codes i) (codes j)

abbrev pub member : String → List String → Bool
member i [] = false
member i (j ∷ js) = j =? i || member i js

-- The bans that may go.
abbrev pub candidates : List String → Bans → Bans
candidates keep bans = select (λ e. not (member e.0 keep)) bans

unfoldable pub delete_all : List String → Bans → Bans
delete_all [] bans = bans
delete_all (ip ∷ ips) bans = delete_all ips (delete ip bans)

-- `ips[:over]` of the sorted candidates.
unfoldable pub evictions : ℕ → List String → Bans → List (String × Entry)
evictions over keep bans = take over (sort_by goes_first (candidates keep bans))

abbrev pub addresses : List (String × Entry) → List String
addresses = map λ e. e.0

-- `makeRoomLocked`: the bans left, and the evicted addresses. A slice up to `over` is the whole one if
-- `over` is larger, and so is `take`.
unfoldable pub make_room : Host → ℕ → List String → Bans → Bans × List String
make_room h n keep bans =
    if leb (length bans + n) (ban_cap h)
    then (bans, [])
    else (let gone = addresses (evictions (length bans + n - ban_cap h) keep bans) in
        (delete_all gone bans, gone))

-- `claimBan`: the bans, whether the address was not banned yet, and the evicted addresses.
unfoldable pub claim_ban : Host → Bans → String → Time → Time → Bans × Bool × List String
claim_ban h bans ip expires now =
    if has ip bans
    then (bans, false, [])
    else (let (bans', out) = make_room h 1 [] bans in
        (insert ip (record { added = now; expires = expires }) bans', true, out))

-- A ban that is over at `now`.
abbrev pub is_over : Time → Entry → Bool
is_over now b = not (is_zero b.expires) && not (after b.expires now)

-- `ExpireBans`: the bans left and the expired addresses, sorted.
unfoldable pub expire_bans : Bans → Time → Bans × List String
expire_bans bans now = (
  retain (λ ip b. not (is_over now b)) bans,
  sort_by (λ i j. lex_lt (codes i) (codes j)) (addresses (select (λ e. is_over now e.1) bans)),
)

-- `NextBanExpiry`.
unfoldable pub next_expiry : Bans → Time → Time
next_expiry [] next = next
next_expiry ((ip, b) ∷ bans) next =
    next_expiry bans (
      if not (is_zero b.expires) && (is_zero next || before b.expires next)
      then b.expires
      else next)
