-- ===== src/Firewall/Verdict.antt =====
-- internal/firewall/chain.go and portsegress.go: the packets that the wanted chains drop are those
-- that the agent's state blocks, with ipset and without.
use infrafence_agent.Base.{
  ℕ, Bool, true, false, not, ◌&&◌, ◌||◌, Option, none, some, List, [], ◌∷◌, ◌++◌, map, ◌==◌,
  if◌then◌else◌, any, ◌≡◌, refl, ap, ◌∙◌, arith,
}
use infrafence_agent.Base.Sort.{sort_by, any-sort_by}
use infrafence_agent.Base.Text.{same, lex_lt}
use infrafence_agent.Firewall.Lines.{Line, ports_chain_name, egress_chain_name}
use infrafence_agent.Firewall.Chain.{
  Net, source_in_set, source_in, loopback, opens_port, return, drop, Rule, Desired, allow_entries,
  ban_nets, sub_jumps, threat_rules, geo_names, allow_rules, drop_rules, desired_rules,
  private_sources, ports_rules, egress_rules, allow_set_name, ban_set_name, threat_set_name,
  egress_set_name,
}
use infrafence_agent.Firewall.Packets.{
  Packet, in_set, drops_in, returns_first, drops_sources, drops_sets, drops_ports, drops_targets,
}
use infrafence_agent.Firewall.Covered.{
  allowed, banned, in_feed, in_country, closed, unreachable, Filled, any-allow_entries,
  any-ban_nets, any-geo_names,
}

module _ (parse_net : Line → Option Net) (covers : Line → ℕ → Bool) (sets : Line → List Line) where
  -- What the chains that the main chain jumps to drop.
  unfoldable pub sub_drops : Bool → Desired → Packet → Line → Bool
  unfolding drops_in ports_rules egress_rules
  sub_drops ipset s p c =
      if same c ports_chain_name
      then drops_in covers sets (λ d. false) (ports_rules s.closed_ports) p
      else if same c egress_chain_name
      then drops_in covers sets (λ d. false) (egress_rules ipset s.egress) p
      else false

  unfoldable pub chain_drops : Bool → Desired → Packet → Bool
  unfolding drops_in desired_rules sub_drops
  chain_drops ipset s p =
      drops_in covers sets (sub_drops ipset s p) (desired_rules parse_net ipset s) p

  -- The host's own packets go from OUTPUT to the egress chain, past the main chain.
  unfoldable pub output_drops : Bool → Desired → Packet → Bool
  unfolding drops_in egress_rules
  output_drops ipset s p = drops_in covers sets (λ d. false) (egress_rules ipset s.egress) p

  closed-drops :
      (xs : List Line) (ps : List ℕ) (p : Packet)
      → drops_in covers sets
          (λ d. false)
          ((loopback, return)
            ∷ (map (λ n. (source_in n, return)) xs ++ map (λ q. (opens_port q, drop)) ps))
          p
        ≡ (not p.on_loopback
            && not (any xs (λ t. covers t p.src))
            && p.opens
            && any ps (λ q. q == p.port))
  unfolding drops_in
  closed-drops xs ps p = ground (
    arith,
    returns_first covers sets (λ d. false) xs (map (λ q. (opens_port q, drop)) ps) p,
    drops_ports covers sets (λ d. false) ps p,
  )

  ports-drops :
      (ps : List ℕ) (p : Packet)
      → drops_in covers sets (λ d. false) (ports_rules ps) p ≡ closed covers ps p
  unfolding ports_rules drops_in
  ports-drops [] p = ground arith
  ports-drops (q ∷ ps) p = closed-drops private_sources (q ∷ ps) p

  egress-drops :
      (ipset : Bool) (ips : List Line) (p : Packet)
      → (ipset ≡ true → in_set covers sets egress_set_name p.dst ≡ unreachable covers ips p.dst)
      → drops_in covers sets (λ d. false) (egress_rules ipset ips) p ≡ unreachable covers ips p.dst
  unfolding egress_rules drops_in
  egress-drops true [] p f = refl
  egress-drops true (ip ∷ ips) p f = ground (arith, f refl)
  egress-drops false ips p f = drops_targets covers sets (λ d. false) ips p

  threat-drops :
      (sub : Line → Bool) (t : Option (List Line)) (rest : List Rule) (p : Packet)
      → ((nets : List Line) → t ≡ some nets → sets threat_set_name ≡ nets)
      → drops_in covers sets sub (threat_rules t ++ rest) p
        ≡ (in_feed covers t p.src || drops_in covers sets sub rest p)
  unfolding threat_rules drops_in
  threat-drops sub none rest p f = refl
  threat-drops sub (some nets) rest p f =
      ground (arith, ap (λ (x : List Line). any x (λ t. covers t p.src)) (f nets refl))

  ban-drops :
      (sub : Line → Bool) (rest : List Rule) (p : Packet) (b : Bool)
      → in_set covers sets ban_set_name p.src ≡ b
      → drops_in covers sets sub ((source_in_set ban_set_name, drop) ∷ rest) p
        ≡ (b || drops_in covers sets sub rest p)
  unfolding drops_in
  ban-drops sub rest p b e = ground (arith, e)

  drop_rules-drops :
      (ipset : Bool) (s : Desired) (p : Packet) (sub : Line → Bool)
      → (ipset ≡ true → Filled parse_net covers sets s)
      → drops_in covers sets sub (drop_rules parse_net ipset s) p ≡ (
          banned parse_net covers s p.src
          || (ipset && (in_feed covers s.threat p.src || in_country covers s.geo p.src)))
  unfolding drop_rules
  drop_rules-drops true s p sub f =
      let sorted = sort_by lex_lt (geo_names s.geo) in
      let geo_rules = map (λ set. (source_in_set set, drop)) sorted in
      ban-drops sub (threat_rules s.threat ++ geo_rules) p _ ((f refl).ban_set p.src)
      ∙ ap (λ b. banned parse_net covers s p.src || b)
          (threat-drops sub s.threat geo_rules p (f refl).threat_set
            ∙ ap (λ b. in_feed covers s.threat p.src || b)
                (drops_sets covers sets sub sorted p
                  ∙ any-sort_by lex_lt _ (geo_names s.geo)
                  ∙ any-geo_names covers sets s.geo p.src (f refl).geo_sets))
  drop_rules-drops false s p sub f =
      drops_sources covers sets sub (sort_by lex_lt (ban_nets parse_net s.bans)) p
      ∙ any-sort_by lex_lt _ (ban_nets parse_net s.bans)
      ∙ any-ban_nets parse_net covers s.bans p.src
      ∙ ground arith

  allow-drops :
      (ipset : Bool) (sub : Line → Bool) (entries : List Line) (rest : List Rule) (p : Packet)
      → (ipset ≡ true → sets allow_set_name ≡ entries)
      → drops_in covers sets sub (allow_rules ipset entries ++ rest) p
        ≡ (not (any entries (λ t. covers t p.src)) && drops_in covers sets sub rest p)
  unfolding allow_rules
  allow-drops true sub [] rest p f = refl
  allow-drops true sub (a ∷ entries) rest p f = unfold drops_in in rw (f refl) (ground arith)
  allow-drops false sub entries rest p f = returns_first covers sets sub entries rest p

  sub_drops-ports :
      (ipset : Bool) (s : Desired) (p : Packet)
      → sub_drops ipset s p ports_chain_name ≡ closed covers s.closed_ports p
  unfolding sub_drops
  sub_drops-ports ipset s p = ports-drops s.closed_ports p

  sub_drops-egress :
      (ipset : Bool) (s : Desired) (p : Packet)
      → (ipset ≡ true → Filled parse_net covers sets s)
      → sub_drops ipset s p egress_chain_name ≡ unreachable covers s.egress p.dst
  unfolding sub_drops
  sub_drops-egress ipset s p f = egress-drops ipset s.egress p (λ t. (f t).egress_set p.dst)

  jumps-drop :
      (sub : Line → Bool) (rest : List Rule) (p : Packet)
      → drops_in covers sets sub (sub_jumps ++ rest) p
        ≡ (sub ports_chain_name || (sub egress_chain_name || drops_in covers sets sub rest p))
  unfolding drops_in sub_jumps
  jumps-drop sub rest p = refl

  main_chain-drops :
      (ipset : Bool) (s : Desired) (p : Packet)
      → (ipset ≡ true → Filled parse_net covers sets s)
      → chain_drops ipset s p ≡ (
          not (allowed parse_net covers s p.src)
          && (closed covers s.closed_ports p
              || (unreachable covers s.egress p.dst
                  || (banned parse_net covers s p.src
                      || (ipset
                          && (in_feed covers s.threat p.src || in_country covers s.geo p.src))))))
  unfolding chain_drops desired_rules
  main_chain-drops ipset s p f =
      let sub = sub_drops ipset s p in
      let entries = allow_entries parse_net s in
      let rules = drop_rules parse_net ipset s in
      allow-drops ipset sub entries (sub_jumps ++ rules) p (λ t. (f t).allow_set)
      ∙ ap (λ b. not b && drops_in covers sets sub (sub_jumps ++ rules) p)
          (any-allow_entries parse_net covers s p.src)
      ∙ ap (λ b. not (allowed parse_net covers s p.src) && b)
          (jumps-drop sub rules p
            ∙ rw
                (
                  sub_drops-ports ipset s p,
                  sub_drops-egress ipset s p f,
                  drop_rules-drops ipset s p sub f,
                )
                refl)

  -- The chain INFRAFENCE, with the two that it jumps to, drops a packet exactly when its source is not
  -- allowed and the packet opens a closed port from a public address, goes to an address that the host
  -- may not reach, or comes from an address that is banned or, on a host with ipset, listed by a feed or
  -- of a blocked country. The chain INFRAFENCE-EGRESS, to which OUTPUT jumps by itself, drops a packet
  -- exactly when it goes to an address that the host may not reach, whatever its source. The dashboard's
  -- rules stand in a chain of their own, of which this says nothing. With ipset, the sets hold what the
  -- state lists.
  pub chain_drops_lem :
      (ipset : Bool) (s : Desired) (p : Packet)
      → (ipset ≡ true → Filled parse_net covers sets s)
      → (chain_drops ipset s p ≡ (
          not (allowed parse_net covers s p.src)
          && (closed covers s.closed_ports p
              || (unreachable covers s.egress p.dst
                  || (banned parse_net covers s p.src
                      || (ipset
                          && (in_feed covers s.threat p.src || in_country covers s.geo p.src)))))))
        × (output_drops ipset s p ≡ unreachable covers s.egress p.dst)
  unfolding output_drops
  chain_drops_lem ipset s p f =
      (main_chain-drops ipset s p f, egress-drops ipset s.egress p (λ t. (f t).egress_set p.dst))
