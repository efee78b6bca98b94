-- ===== src/Firewall/Spared.antt =====
-- internal/firewall/threatset.go: the networks that coversSafeIP refuses.
use infrafence_agent.Base.{
  ℕ, zero, suc, ◌-◌, ◌≤◌, Bool, true, false, not, ◌&&◌, ◌||◌, List, [], ◌∷◌, leb, ◌==◌, any, ◌≡◌,
  refl, ap, subst, sym, ◌∙◌, ◌/◌, ==_iff, arith, Bool-cases, inl, inr,
}
use infrafence_agent.Geoip.Ranges.{Cidr}
use infrafence_agent.Firewall.Threat.{
  leading, contains, reserved_nets, is_reserved, Safe, covers_safe,
}

leading-le : (a b k l : ℕ) → leading a k ≡ leading b k → k ≤ l → leading a l ≡ leading b l
leading-le a b k zero e h =
    let q : k ≡ zero = omega (arith, h) in subst (λ j. leading a j ≡ leading b j) q e
leading-le a b k (suc l) e h = elim (Bool-cases (leb k l)) [
  | inl t ↦ ap (λ x. x / 2) (leading-le a b k l e (grind (arith, t)))
  | inr t ↦ let q : k ≡ suc l = grind (arith, h, t) in subst (λ j. leading a j ≡ leading b j) q e
]

-- Of two networks that share an address, the narrower one lies in the other one.
contains-nested :
    (n k : Cidr) (a : ℕ)
    → k.ones ≤ n.ones
    → contains n a ≡ true
    → contains k a ≡ true
    → contains k n.base ≡ true
unfolding contains
contains-nested n k a h p q = (==_iff _ _).1 (
    sym (leading-le a n.base (32 - n.ones) (32 - k.ones) ((==_iff _ _).0 p) (omega arith))
    ∙ (==_iff _ _).0 q)

-- The agent must never block the address: it is the agent's own one and not reserved, or protected, or of
-- a network that is to be kept.
abbrev pub never_blocked : Safe → ℕ → Bool
never_blocked s a =
    (any s.locals (λ b. b == a) && not (is_reserved a))
    || any s.guarded (λ b. b == a)
    || any s.keep (λ k. contains k a)

-- The address is reserved, by a range at least as wide as the network.
abbrev pub within_reserved : Cidr → ℕ → Bool
within_reserved n a = any reserved_nets (λ r. leb r.ones n.ones && contains r a)

any_holding {ℓ} :
    {A : Type ℓ} (xs : List A) (p q : A → Bool)
    → ((x : A) → p x ≡ true → q x ≡ true)
    → any xs p ≡ true
    → any xs q ≡ true
any_holding [] p q f h = h
any_holding (x ∷ xs) p q f h = ground (arith, f x, any_holding xs p q f)

range_held :
    (n r : Cidr) (a : ℕ)
    → contains n a ≡ true
    → (leb r.ones n.ones && contains r a) ≡ true
    → contains r n.base ≡ true
range_held n r a c h = elim (Bool-cases (leb r.ones n.ones)) [
  | inl t ↦ contains-nested n r a (grind (arith, t)) c (ground (arith, h, t))
  | inr t ↦ ground (arith, h, t)
]

within_reserved-is_reserved :
    (n : Cidr) (a : ℕ)
    → contains n a ≡ true
    → within_reserved n a ≡ true
    → is_reserved n.base ≡ true
unfolding is_reserved
within_reserved-is_reserved n a c =
    any_holding reserved_nets (λ r. leb r.ones n.ones && contains r a) (λ r. contains r n.base)
      (λ r h. range_held n r a c h)

keep-overlaps :
    (n : Cidr) (s : Safe) (a : ℕ)
    → contains n a ≡ true
    → any s.keep (λ k. contains k a) ≡ true
    → any s.keep (λ k. contains n k.base || contains k n.base) ≡ true
keep-overlaps n s a c =
    any_holding s.keep (λ k. contains k a) (λ k. contains n k.base || contains k n.base)
      (λ k h. elim (Bool-cases (leb k.ones n.ones)) [
        | inl t ↦ ground (arith, contains-nested n k a (grind (arith, t)) c h)
        | inr t ↦ ground (arith, contains-nested k n a (grind (arith, t)) h c)
      ])

guarded_held :
    (n : Cidr) (a : ℕ) (ips : List ℕ) (p : ℕ → Bool)
    → p a ≡ true
    → any ips (λ b. b == a) ≡ true
    → any ips p ≡ true
guarded_held n a ips p c =
    any_holding ips _ _ (λ b e. subst (λ x. p x ≡ true) (sym ((==_iff b a).0 e)) c)

-- Each ground to refuse a network, from the one that an address gives.
refused_by :
    (l r g k w bl br bg bk : Bool)
    → (((l && not r) || g || k) || w) ≡ true
    → (w ≡ true → br ≡ true)
    → (l ≡ true → r ≡ false → bl ≡ true)
    → (g ≡ true → bg ≡ true)
    → (k ≡ true → bk ≡ true)
    → (br || bl || bg || bk) ≡ true
refused_by l r g k w bl br bg bk h fw fl fg fk = ground (arith, h, fw, fl, fg, fk)

-- A network with an address that must not be blocked is refused.
pub covers_safe-refuses :
    (n : Cidr) (s : Safe) (a : ℕ)
    → contains n a ≡ true
    → (never_blocked s a || within_reserved n a) ≡ true
    → covers_safe n s ≡ true
covers_safe-refuses n s a c h =
    unfold covers_safe in
    refused_by (any s.locals (λ b. b == a)) (is_reserved a) (any s.guarded (λ b. b == a))
      (any s.keep (λ k. contains k a)) (within_reserved n a)
      (any s.locals (λ b. contains n b && not (is_reserved b))) (is_reserved n.base)
      (any s.guarded (contains n)) (any s.keep (λ k. contains n k.base || contains k n.base)) h
      (within_reserved-is_reserved n a c)
      (λ l r.
        guarded_held n a s.locals (λ b. contains n b && not (is_reserved b)) (rw (c, r) refl) l)
      (guarded_held n a s.guarded (contains n) c) (keep-overlaps n s a c)
