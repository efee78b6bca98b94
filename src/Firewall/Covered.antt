-- ===== src/Firewall/Covered.antt =====
-- internal/firewall/chain.go: what the state says of an address, and that the entries which the agent
-- writes cover the same addresses.
use infrafence_agent.Base.{
  ℕ, Bool, true, false, not, ◌&&◌, ◌||◌, Option, none, some, List, [], ◌∷◌, ◌++◌, ◌==◌, any,
  any-append, All, ◌≡◌, refl, ap, ◌∙◌, arith, Bool-cases, Option-cases, inl, inr,
}
use infrafence_agent.Base.Dict.{Dict}
use infrafence_agent.Base.Text.{codes, same, lex_lt, same-eq}
use infrafence_agent.Base.Sort.{any-sort_by}
use infrafence_agent.Firewall.Lines.{Line}
use infrafence_agent.Firewall.Chain.{
  Net, Desired, add_net, add_entries, allow_entries, ban_net, ban_nets, geo_names, private_sources,
  allow_set_name, ban_set_name, threat_set_name, egress_set_name,
}
use infrafence_agent.Firewall.Packets.{Packet, in_set}

abbrev pub net_covers : (Line → ℕ → Bool) → Option Net → ℕ → Bool
net_covers covers none a = false
net_covers covers (some n) a = n.is_v4 && covers n.text a

-- What the state says of an address: it is protected, one of this server's or on the allow list; it
-- is banned; a threat feed lists it; its country is blocked; the host may not reach it.
abbrev pub allowed : (Line → Option Net) → (Line → ℕ → Bool) → Desired → ℕ → Bool
allowed parse_net covers s a =
    any (s.protected ++ (s.local ++ s.allow)) (λ v. net_covers covers (parse_net v) a)

abbrev pub banned : (Line → Option Net) → (Line → ℕ → Bool) → Desired → ℕ → Bool
banned parse_net covers s a = any s.bans (λ ip. net_covers covers (parse_net ip) a)

abbrev pub in_feed : (Line → ℕ → Bool) → Option (List Line) → ℕ → Bool
in_feed covers none a = false
in_feed covers (some nets) a = any nets (λ t. covers t a)

abbrev pub in_country : (Line → ℕ → Bool) → Dict Line (List Line) → ℕ → Bool
in_country covers geo a = any geo (λ e. any e.1 (λ t. covers t a))

abbrev pub closed : (Line → ℕ → Bool) → List ℕ → Packet → Bool
closed covers ports p =
    not p.on_loopback
    && not (any private_sources (λ t. covers t p.src))
    && p.opens
    && any ports (λ q. q == p.port)

abbrev pub unreachable : (Line → ℕ → Bool) → List Line → ℕ → Bool
unreachable covers ips a = any ips (λ ip. covers (ip ++ codes "/32") a)

-- What ensureSets puts in the sets.
pub record Filled (parse_net : Line → Option Net) (covers : Line → ℕ → Bool)
    (sets : Line → List Line) (s : Desired) : Type 0 where
  pub allow_set : sets allow_set_name ≡ allow_entries parse_net s
  pub ban_set : (a : ℕ) → in_set covers sets ban_set_name a ≡ banned parse_net covers s a
  pub threat_set : (nets : List Line) → s.threat ≡ some nets → sets threat_set_name ≡ nets
  pub geo_sets : All (λ (set, cidrs). sets set ≡ cidrs) s.geo
  pub egress_set : (a : ℕ) → in_set covers sets egress_set_name a ≡ unreachable covers s.egress a

pub any-geo_names :
    (covers : Line → ℕ → Bool) (sets : Line → List Line) (geo : Dict Line (List Line)) (a : ℕ)
    → All (λ (set, cidrs). sets set ≡ cidrs) geo
    → any (geo_names geo) (λ set. in_set covers sets set a) ≡ in_country covers geo a
unfolding geo_names in_set
any-geo_names covers sets [] a h = refl
any-geo_names covers sets ((set, cidrs) ∷ geo) a h =
    rw (h.0, any-geo_names covers sets geo a h.1) refl

module _ (parse_net : Line → Option Net) (covers : Line → ℕ → Bool) where
  -- An entry that is left out because it was seen covers nothing more.
  any-same :
      (a : ℕ) (t : Line) (out : List Line)
      → any out (same t) ≡ true
      → covers t a ≡ true
      → any out (λ u. covers u a) ≡ true
  any-same a t [] h c = cc
  any-same a t (u ∷ out) h c = elim (Bool-cases (same t u)) [
    | inl e ↦ ground (arith, ap (λ (w : Line). covers w a) (same-eq t u e))
    | inr e ↦ ground (arith, any-same a t out)
  ]

  any-add_net :
      (a : ℕ) (out : List Line) (n : Option Net)
      → any (add_net out n) (λ u. covers u a) ≡ (any out (λ u. covers u a) || net_covers covers n a)
  unfolding add_net
  any-add_net a out none = ground arith
  any-add_net a out (some n) =
      ground (arith, any-same a n.text out, any-append (λ u. covers u a) out (n.text ∷ []))

  any-add_entries :
      (a : ℕ) (out vs : List Line)
      → any (add_entries parse_net out vs) (λ u. covers u a)
        ≡ (any out (λ u. covers u a) || any vs (λ v. net_covers covers (parse_net v) a))
  unfolding add_entries
  any-add_entries a out [] = ground arith
  any-add_entries a out (v ∷ vs) =
      ground
        (arith, any-add_entries a (add_net out (parse_net v)) vs, any-add_net a out (parse_net v))

  pub any-allow_entries :
      (s : Desired) (a : ℕ)
      → any (allow_entries parse_net s) (λ u. covers u a) ≡ allowed parse_net covers s a
  unfolding allow_entries
  any-allow_entries s a =
      any-sort_by lex_lt _ (add_entries parse_net [] (s.protected ++ (s.local ++ s.allow)))
      ∙ any-add_entries a [] (s.protected ++ (s.local ++ s.allow))

  pub any-ban_nets :
      (ips : List Line) (a : ℕ)
      → any (ban_nets parse_net ips) (λ u. covers u a)
        ≡ any ips (λ ip. net_covers covers (parse_net ip) a)
  unfolding ban_nets ban_net
  any-ban_nets [] a = refl
  any-ban_nets (ip ∷ ips) a = elim (Option-cases (parse_net ip)) [
    | inl e ↦ rw (e, ban_nets) (any-ban_nets ips a)
    | inr (n, e) ↦ rw (e, ban_nets) (ground (arith, any-ban_nets ips a))
  ]
