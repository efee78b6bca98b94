-- ===== src/Firewall/Targets.antt =====
-- internal/firewall/chain.go: what a rule must look like to accept a packet, and that `mayAccept` sees it.
use infrafence_agent.Base.{
  Bool, true, false, ◌||◌, List, [], ◌∷◌, ◌++◌, map, ==_iff, ◌≡◌, refl, ap, sym, ◌∙◌, ◌⊎◌, inl, inr,
  arith, All, Bool-cases, if◌then◌else◌, any,
}
use infrafence_agent.Base.Sort.{In}
use infrafence_agent.Base.Text.{codes, same, same-eq}
use infrafence_agent.Firewall.Lines.{
  Line, chain_name, rules_chain_name, ports_chain_name, egress_chain_name, fields, has_prefix,
  to_lower, target_accepts, jump_accepts, words_accept, may_accept,
}

abbrev pub is_flag : Line → Bool
is_flag w = same w (codes "-j") || same w (codes "-g")

-- A line with a target: the word behind the first `-j` or `-g`.
abbrev pub HasTarget : Line → Line → Type 0
HasTarget l t =
    (before after : List Line) × (flag : Line) × (fields l ≡ before ++ (flag ∷ t ∷ after))
    × (is_flag flag ≡ true)
    × All (λ w. is_flag w ≡ false) before

abbrev pub no_accept_names : List Line
no_accept_names =
    codes "DROP"
    ∷ codes "REJECT"
    ∷ codes "RETURN"
    ∷ codes "LOG"
    ∷ chain_name
    ∷ rules_chain_name
    ∷ ports_chain_name
    ∷ egress_chain_name
    ∷ []

abbrev pub Begins : Line → Line → Type 0
Begins t prefix = (rest : Line) × (t ≡ prefix ++ rest)

-- A target that does not accept: a verdict, a chain of the agent, or one of fail2ban or CrowdSec.
abbrev pub IsHarmless : Line → Type 0
IsHarmless t =
    In t no_accept_names
    ⊎ Begins t (codes "f2b-")
    ⊎ Begins t (codes "fail2ban")
    ⊎ Begins (map to_lower t) (codes "crowdsec")

has_prefix-Begins : (s p : Line) → has_prefix s p ≡ true → Begins s p
unfolding has_prefix
has_prefix-Begins s [] h = (s, refl)
has_prefix-Begins [] (p ∷ ps) h = absurd (cc h)
has_prefix-Begins (c ∷ s) (p ∷ ps) h =
    let (rest, e) = has_prefix-Begins s ps (ground (arith, h)) in
    let q : c ≡ p = (==_iff c p).0 (ground (arith, h)) in (rest, λ i. q i ∷ e i)

words_accept-target :
    (before after : List Line) (flag t : Line)
    → is_flag flag ≡ true
    → All (λ w. is_flag w ≡ false) before
    → words_accept (before ++ (flag ∷ t ∷ after)) ≡ target_accepts t
unfolding words_accept jump_accepts
words_accept-target [] after flag t f h = rw f refl
words_accept-target (w ∷ before) after flag t f h =
    rw (h.0) (words_accept-target before after flag t f h.1)

may_accept-target : (l t : Line) → HasTarget l t → may_accept l ≡ target_accepts t
unfolding may_accept
may_accept-target l t (before, after, flag, e, f, h) =
    ap words_accept e ∙ words_accept-target before after flag t f h

named : (t : Line) (names : List Line) → any names (same t) ≡ true → In t names
named t [] h = absurd (cc h)
named t (n ∷ names) h = elim (Bool-cases (same t n)) [
  | inl e ↦ inl (same-eq t n e)
  | inr e ↦ inr (named t names (ground (arith, h, e)))
]

-- The branches of the switch, by what it tests.
left_out :
    (a d r n l c1 c2 c3 c4 p1 p2 p3 : Bool)
    → (if a
        then true
        else if d || r || n || l
        then false
        else if c1 || c2 || c3 || c4
        then false
        else if p1 || p2 || p3
        then false
        else true)
      ≡ false
    → ((d || (r || (n || (l || (c1 || (c2 || (c3 || (c4 || false)))))))) || p1 || p2 || p3) ≡ true
left_out a d r n l c1 c2 c3 c4 p1 p2 p3 h = ground (arith, h)

prefixed :
    (t : Line) (n p1 p2 p3 : Bool)
    → (n || p1 || p2 || p3) ≡ true
    → (n ≡ true → In t no_accept_names)
    → (p1 ≡ true → Begins t (codes "f2b-"))
    → (p2 ≡ true → Begins t (codes "fail2ban"))
    → (p3 ≡ true → Begins (map to_lower t) (codes "crowdsec"))
    → IsHarmless t
prefixed t true p1 p2 p3 h n f g k = inl (n refl)
prefixed t false true p2 p3 h n f g k = inr (inl (f refl))
prefixed t false false true p3 h n f g k = inr (inr (inl (g refl)))
prefixed t false false false true h n f g k = inr (inr (inr (k refl)))
prefixed t false false false false h n f g k = absurd (cc h)

target_accepts-IsHarmless : (t : Line) → target_accepts t ≡ false → IsHarmless t
target_accepts-IsHarmless t h =
    let found =
      left_out (same t (codes "ACCEPT")) (same t (codes "DROP")) (same t (codes "REJECT"))
        (same t (codes "RETURN")) (same t (codes "LOG")) (same t chain_name)
        (same t rules_chain_name) (same t ports_chain_name) (same t egress_chain_name)
        (has_prefix t (codes "f2b-")) (has_prefix t (codes "fail2ban"))
        (has_prefix (map to_lower t) (codes "crowdsec")) (unfold target_accepts in h) in
    prefixed t (any no_accept_names (same t)) (has_prefix t (codes "f2b-"))
      (has_prefix t (codes "fail2ban")) (has_prefix (map to_lower t) (codes "crowdsec")) found
      (named t no_accept_names) (has_prefix-Begins t (codes "f2b-"))
      (has_prefix-Begins t (codes "fail2ban"))
      (has_prefix-Begins (map to_lower t) (codes "crowdsec"))

-- A line that `mayAccept` clears has no target that can accept.
pub may_accept-IsHarmless : (l t : Line) → HasTarget l t → may_accept l ≡ false → IsHarmless t
may_accept-IsHarmless l t h e = target_accepts-IsHarmless t (sym (may_accept-target l t h) ∙ e)
