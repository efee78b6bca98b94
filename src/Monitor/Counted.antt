-- ===== src/Monitor/Counted.antt =====
-- internal/monitor/flood.go: the connections of each source are counted.
use infrafence_agent.Base.{
  ℕ, ◌+◌, not, ◌&&◌, List, [], ◌∷◌, String, if◌then◌else◌, ◌≡◌, refl, subst, arith, inl, inr,
}
use infrafence_agent.Base.Dict.{Dict, lookup, insert, Distinct, lookup-insert, insert-Distinct}
use infrafence_agent.Base.Keys.{string_key, ◌=?◌, =?-cases, =?-refl}
use infrafence_agent.Monitor.Flood.{Conn, should_skip, number, count_conn, count_conns}

-- How many of the connections are of a source and count.
abbrev pub tally : List String → String → List Conn → ℕ
tally whitelists ip [] = 0
tally whitelists ip (c ∷ cs) =
    (if (c.source =? ip) && (c.counts && not (should_skip whitelists c)) then 1 else 0)
    + tally whitelists ip cs

number-insert :
    (k ip : String) (m : Dict String ℕ)
    → number (lookup ip (insert k (number (lookup k m) + 1) m))
      ≡ number (lookup ip m) + (if k =? ip then 1 else 0)
number-insert k ip m = elim (=?-cases k ip) [
  | inl (t, q) ↦
      subst
        (λ j.
          number (lookup j (insert k (number (lookup k m) + 1) m))
          ≡ number (lookup j m) + (if k =? j then 1 else 0))
        q (rw (lookup-insert k k (number (lookup k m) + 1) m, =?-refl k) refl)
  | inr (f, q) ↦ rw (lookup-insert k ip (number (lookup k m) + 1) m, f) (omega arith)
]

number-count :
    (whitelists : List String) (ip : String) (c : Conn) (m : Dict String ℕ)
    → number (lookup ip (count_conn whitelists c m))
      ≡ number (lookup ip m)
        + (if (c.source =? ip) && (c.counts && not (should_skip whitelists c)) then 1 else 0)
unfolding count_conn
number-count whitelists ip c m = ground (arith, number-insert c.source ip m)

pub count_conns-tally :
    (whitelists : List String) (ip : String) (cs : List Conn) (m : Dict String ℕ)
    → number (lookup ip (count_conns whitelists cs m))
      ≡ number (lookup ip m) + tally whitelists ip cs
unfolding count_conns
count_conns-tally whitelists ip [] m = omega arith
count_conns-tally whitelists ip (c ∷ cs) m = omega (
  arith,
  count_conns-tally whitelists ip cs (count_conn whitelists c m),
  number-count whitelists ip c m,
)

count_conn-Distinct :
    (whitelists : List String) (c : Conn) (m : Dict String ℕ)
    → Distinct m
    → Distinct (count_conn whitelists c m)
unfolding count_conn
count_conn-Distinct whitelists c m d =
    ground (arith, insert-Distinct c.source (number (lookup c.source m) + 1) m d)

pub count_conns-Distinct :
    (whitelists : List String) (cs : List Conn) (m : Dict String ℕ)
    → Distinct m
    → Distinct (count_conns whitelists cs m)
unfolding count_conns
count_conns-Distinct whitelists [] m d = d
count_conns-Distinct whitelists (c ∷ cs) m d =
    count_conns-Distinct whitelists cs (count_conn whitelists c m)
      (count_conn-Distinct whitelists c m d)
