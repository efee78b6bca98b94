-- ===== src/Firewall/Packets.antt =====
-- internal/firewall/chain.go and portsegress.go: what the wanted chains do with a packet, set against
-- what the agent's state says of it.
use infrafence_agent.Base.{
  ℕ, Bool, true, false, not, ◌&&◌, ◌||◌, List, [], ◌∷◌, ◌++◌, map, ◌==◌, if◌then◌else◌, any, ◌≡◌,
  refl, arith,
}
use infrafence_agent.Base.Text.{codes}
use infrafence_agent.Firewall.Lines.{Line}
use infrafence_agent.Firewall.Chain.{
  Match, every, source_in_set, source_in, target_in_set, target_in, loopback, opens_port, Target,
  return, drop, jump, Rule,
}

pub record Packet : Type 0 where
  pub src : ℕ
  pub dst : ℕ
  pub on_loopback : Bool
  -- It opens a TCP connection, to this port before any translation of addresses.
  pub opens : Bool
  pub port : ℕ

-- The kernel: `covers` is whether the text of a network covers an address, and `sets` has the entries
-- of each set.
module _ (covers : Line → ℕ → Bool) (sets : Line → List Line) where
  unfoldable pub in_set : Line → ℕ → Bool
  in_set s a = any (sets s) (λ t. covers t a)

  unfoldable pub matches : Match → Packet → Bool
  matches every p = true
  matches (source_in_set s) p = in_set s p.src
  matches (source_in n) p = covers n p.src
  matches (target_in_set s) p = in_set s p.dst
  matches (target_in n) p = covers n p.dst
  matches loopback p = p.on_loopback
  matches (opens_port q) p = p.opens && q == p.port

  unfoldable pub takes : (Line → Bool) → Target → Bool → Bool
  takes sub return rest = false
  takes sub drop rest = true
  takes sub (jump c) rest = sub c || rest

  -- Whether the rules of a chain drop a packet; `sub` tells it for the chains that they jump to.
  unfoldable pub drops_in : (Line → Bool) → List Rule → Packet → Bool
  unfolding matches takes in_set
  drops_in sub [] p = false
  drops_in sub ((m, t) ∷ rs) p =
      let rest = drops_in sub rs p in if matches m p then takes sub t rest else rest

  pub returns_first :
      (sub : Line → Bool) (xs : List Line) (rest : List Rule) (p : Packet)
      → drops_in sub (map (λ a. (source_in a, return)) xs ++ rest) p
        ≡ (not (any xs (λ t. covers t p.src)) && drops_in sub rest p)
  unfolding drops_in
  returns_first sub [] rest p = refl
  returns_first sub (x ∷ xs) rest p = ground (arith, returns_first sub xs rest p)

  pub drops_sources :
      (sub : Line → Bool) (xs : List Line) (p : Packet)
      → drops_in sub (map (λ b. (source_in b, drop)) xs) p ≡ any xs (λ t. covers t p.src)
  unfolding drops_in
  drops_sources sub [] p = refl
  drops_sources sub (x ∷ xs) p = ground (arith, drops_sources sub xs p)

  pub drops_sets :
      (sub : Line → Bool) (xs : List Line) (p : Packet)
      → drops_in sub (map (λ s. (source_in_set s, drop)) xs) p ≡ any xs (λ s. in_set s p.src)
  unfolding drops_in
  drops_sets sub [] p = refl
  drops_sets sub (x ∷ xs) p = ground (arith, drops_sets sub xs p)

  pub drops_ports :
      (sub : Line → Bool) (ps : List ℕ) (p : Packet)
      → drops_in sub (map (λ q. (opens_port q, drop)) ps) p ≡ (p.opens && any ps (λ q. q == p.port))
  unfolding drops_in
  drops_ports sub [] p = ground arith
  drops_ports sub (x ∷ xs) p = ground (arith, drops_ports sub xs p)

  pub drops_targets :
      (sub : Line → Bool) (ips : List Line) (p : Packet)
      → drops_in sub (map (λ ip. (target_in (ip ++ codes "/32"), drop)) ips) p
        ≡ any ips (λ ip. covers (ip ++ codes "/32") p.dst)
  unfolding drops_in
  drops_targets sub [] p = refl
  drops_targets sub (x ∷ xs) p = ground (arith, drops_targets sub xs p)
