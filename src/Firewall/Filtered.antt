-- ===== src/Firewall/Filtered.antt =====
-- internal/firewall/threatset.go: what the threat feeds cannot block.
use infrafence_agent.Base.{
  ℕ, suc, ◌+◌, ◌≤◌, Bool, true, false, not, ◌&&◌, ◌||◌, Option, none, some, List, [], ◌∷◌, ltb,
  if◌then◌else◌, any, length, ◌≡◌, refl, ap, ◌∙◌, arith,
}
use infrafence_agent.Geoip.Ranges.{Cidr}
use infrafence_agent.Firewall.Threat.{
  min_threat_prefix, contains, Safe, covers_safe, parsed, filter_each, filter_threat_nets,
  ThreatAnswers, ThreatResult, no_ipset, off, failed, applied, apply_threat_set, replace_threat,
  in_threat_set,
}
use infrafence_agent.Firewall.Spared.{never_blocked, within_reserved, covers_safe-refuses}

refused_not : (x y z : Bool) → (x ≡ true → y ≡ true → z ≡ true) → z ≡ false → (x && y) ≡ false
refused_not x y z f h = ground (arith, f, h)

kept_spares :
    (n : Cidr) (s : Safe) (a : ℕ)
    → covers_safe n s ≡ false
    → (contains n a && (never_blocked s a || within_reserved n a)) ≡ false
kept_spares n s a f =
    refused_not (contains n a) (never_blocked s a || within_reserved n a) (covers_safe n s)
      (covers_safe-refuses n s a) f

abbrev filtered : Bool → Cidr → List Cidr × ℕ → List Cidr × ℕ
filtered b n (cidrs, skipped) = if b then (cidrs, skipped + 1) else (n ∷ cidrs, skipped)

filtered-spares :
    (b : Bool) (n : Cidr) (rest : List Cidr × ℕ) (p : Cidr → Bool)
    → (b ≡ false → p n ≡ false)
    → any rest.0 p ≡ false
    → any (filtered b n rest).0 p ≡ false
filtered-spares true n rest p f h = h
filtered-spares false n rest p f h = ground (arith, f refl, h)

filtered-length :
    (b : Bool) (n : Cidr) (rest : List Cidr × ℕ)
    → length (filtered b n rest).0 + (filtered b n rest).1 ≡ suc (length rest.0 + rest.1)
filtered-length true n rest = omega arith
filtered-length false n rest = omega arith

-- No network that is kept has an address that must not be blocked.
filter_each-spares :
    (s : Safe) (es : List (Option Cidr)) (a : ℕ)
    → any (filter_each s es).0 (λ n. contains n a && (never_blocked s a || within_reserved n a))
      ≡ false
unfolding filter_each
filter_each-spares s [] a = refl
filter_each-spares s (none ∷ es) a = filter_each-spares s es a
filter_each-spares s (some n ∷ es) a =
    filtered-spares (ltb n.ones min_threat_prefix || covers_safe n s) n (filter_each s es)
      (λ m. contains m a && (never_blocked s a || within_reserved m a))
      (λ f. kept_spares n s a (ground (arith, f))) (filter_each-spares s es a)

-- The kept and the skipped ones are all the IPv4 networks.
filter_each-length :
    (s : Safe) (es : List (Option Cidr))
    → length (filter_each s es).0 + (filter_each s es).1 ≡ length (parsed es)
unfolding filter_each parsed
filter_each-length s [] = refl
filter_each-length s (none ∷ es) = filter_each-length s es
filter_each-length s (some n ∷ es) =
    filtered-length (ltb n.ones min_threat_prefix || covers_safe n s) n (filter_each s es)
    ∙ ap suc (filter_each-length s es)

-- No network of the set has an address that must not be blocked, nor a reserved one unless the network is
-- wider than the reserved range.
abbrev pub Spares : Safe → ℕ → List Cidr → Type 0
Spares s a threat =
    any threat (λ n. contains n a && (never_blocked s a || within_reserved n a)) ≡ false

-- What a result says of the entries and of the set.
abbrev pub IsCounted : List (Option Cidr) → List Cidr → ThreatResult → Type 0
IsCounted entries threat no_ipset = Unit
IsCounted entries threat off = Unit
IsCounted entries threat (failed skipped) = skipped ≤ length (parsed entries)
IsCounted entries threat (applied n skipped) =
    (n ≡ length threat) × (n + skipped ≡ length (parsed entries))

spared_or :
    (c v w rest i : Bool)
    → ((c && (v || w)) || rest) ≡ false
    → (rest ≡ false → (v && i) ≡ false)
    → (v && (c || i)) ≡ false
spared_or c v w rest i h f = ground (arith, h, f)

spared_nil : (v : Bool) → (v && false) ≡ false
spared_nil false = refl
spared_nil true = refl

Spares-in_threat_set :
    (s : Safe) (a : ℕ) (threat : List Cidr)
    → Spares s a threat
    → (never_blocked s a && in_threat_set a threat) ≡ false
unfolding in_threat_set
Spares-in_threat_set s a [] h = spared_nil (never_blocked s a)
Spares-in_threat_set s a (n ∷ threat) h =
    spared_or (contains n a) (never_blocked s a) (within_reserved n a)
      (any threat (λ m. contains m a && (never_blocked s a || within_reserved m a)))
      (any threat (λ m. contains m a)) h (Spares-in_threat_set s a threat)

-- What is true of a set and a result after ApplyThreatSet.
abbrev pub IsApplied : Safe → ℕ → List (Option Cidr) → List Cidr × ThreatResult → Type 0
IsApplied s a entries (threat, result) =
    Spares s a threat
    × ((never_blocked s a && in_threat_set a threat) ≡ false)
    × IsCounted entries threat result

replace_threat-IsApplied :
    (loaded ensured has_ipset disabled : Bool) (s : Safe) (entries : List (Option Cidr))
    (threat : List Cidr) (a : ℕ)
    → Spares s a threat
    → IsApplied s a entries (
        replace_threat
          (record {
            has_ipset = has_ipset;
            disabled = disabled;
            loaded = loaded;
            ensured = ensured;
          })
          (filter_each s entries)
          threat)
unfolding replace_threat
replace_threat-IsApplied false ensured i d s entries threat a h =
    (h, Spares-in_threat_set s a threat h, omega (arith, filter_each-length s entries))
replace_threat-IsApplied true false i d s entries threat a h =
    let spares = filter_each-spares s entries a in
    (
      spares,
      Spares-in_threat_set s a (filter_each s entries).0 spares,
      omega (arith, filter_each-length s entries),
    )
replace_threat-IsApplied true true i d s entries threat a h =
    let spares = filter_each-spares s entries a in
    (
      spares,
      Spares-in_threat_set s a (filter_each s entries).0 spares,
      (refl, filter_each-length s entries),
    )

answered :
    (has_ipset disabled : Bool) (s : Safe) (a : ℕ) (entries : List (Option Cidr))
    (threat : List Cidr) (replaced : List Cidr × ThreatResult)
    → Spares s a threat
    → IsApplied s a entries replaced
    → IsApplied s a entries
        (if not has_ipset then (threat, no_ipset) else if disabled then (threat, off) else replaced)
answered false d s a entries threat r h k = (h, Spares-in_threat_set s a threat h, tt)
answered true true s a entries threat r h k = (h, Spares-in_threat_set s a threat h, tt)
answered true false s a entries threat r h k = k

-- ApplyThreatSet, on every answer, leaves a set none of whose networks has a protected address, an
-- address of the host that is not reserved or one of a network to be kept, so that InThreatSet says no
-- of it, nor a reserved address unless the network is wider than the reserved range, if that was so
-- before. When it succeeds, it counts the networks of the set, and what it skipped are all the other
-- IPv4 entries; when a command fails, it skipped no more than there are.
pub apply_threat_set-IsApplied :
    (x : ThreatAnswers) (entries keep : List (Option Cidr)) (locals guarded : List ℕ)
    (threat : List Cidr) (a : ℕ)
    → Spares (record { locals = locals; guarded = guarded; keep = parsed keep }) a threat
    → IsApplied
        (record { locals = locals; guarded = guarded; keep = parsed keep })
        a
        entries
        (apply_threat_set x entries keep locals guarded threat)
unfolding apply_threat_set filter_threat_nets
apply_threat_set-IsApplied x entries keep locals guarded threat a h =
    let s : Safe = record { locals = locals; guarded = guarded; keep = parsed keep } in
    answered x.has_ipset x.disabled s a entries threat
      (replace_threat x (filter_each s entries) threat) h
      (replace_threat-IsApplied x.loaded x.ensured x.has_ipset x.disabled s entries threat a h)
