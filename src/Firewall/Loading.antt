-- ===== src/Firewall/Loading.antt =====
-- internal/firewall/geoblock.go: what the loop over the wanted countries makes of each.
use infrafence_agent.Base.{
  Bool, true, false, not, ◌||◌, Option, none, some, List, [], ◌∷◌, String, if◌then◌else◌, ◌≡◌,
  subst, refl, ◌∙◌, arith, Bool-cases, inl, inr,
}
use infrafence_agent.Base.Dict.{Dict, lookup, has, Distinct, lookup-insert, lookup-delete}
use infrafence_agent.Base.Keys.{string_key, ◌=?◌, =?-cases, =?-refl}
use infrafence_agent.Firewall.Exclude.{Entry, country_nets}
use infrafence_agent.Firewall.GeoBlock.{
  GeoBlocker, Answers, is_active, add_loaded, add_networks, add_country, add_wanted,
}

-- Whether a country is blocked, and its set.
abbrev pub Of : Type 0
Of = Bool × Option (List Entry)

abbrev pub of_country : String → GeoBlocker → Of
of_country code g = (is_active code g, lookup code g.geo)

-- What the agent promises of one country: it is loaded if the database and the commands allow; a
-- country that was blocked stays so, with the set that it had where the new one cannot be loaded.
abbrev pub loaded : Answers → String → Of → Option (List Entry) → Of
loaded ans code old none = old
loaded ans code old (some []) = old
loaded ans code old (some (e ∷ es)) =
    if ans.loads code
    then (if ans.ensures code || old.0
        then (true, some (country_nets (e ∷ es) ans.open_sessions))
        else (false, none))
    else old

abbrev pub blocked : Answers → Bool → Bool → String → Of → Of
blocked ans reload want code old =
    if want
    then (if not old.0 || reload then loaded ans code old (ans.networks code) else old)
    else (false, none)

-- A country has a set in the chain exactly when it is blocked.
abbrev pub IsMatched : GeoBlocker → Type 0
IsMatched g = (code : String) → has code g.geo ≡ is_active code g

add_loaded-same :
    (ans : Answers) (code : String) (cidrs : List Entry) (g : GeoBlocker)
    → of_country code (add_loaded ans code cidrs g)
      ≡ (if ans.ensures code || is_active code g then (true, some cidrs) else (false, none))
unfolding add_loaded is_active
add_loaded-same ans code cidrs g = ground (
  arith,
  =?-refl code,
  lookup-insert code code cidrs g.geo,
  lookup-insert code code true g.active,
  lookup-delete code code g.geo,
)

add_loaded-other :
    (ans : Answers) (code other : String) (cidrs : List Entry) (g : GeoBlocker)
    → (code =? other) ≡ false
    → of_country other (add_loaded ans code cidrs g) ≡ of_country other g
unfolding add_loaded is_active
add_loaded-other ans code other cidrs g n = ground (
  arith,
  lookup-insert code other cidrs g.geo,
  lookup-insert code other true g.active,
  lookup-delete code other g.geo,
)

add_networks-same :
    (ans : Answers) (code : String) (o : Option (List Entry)) (g : GeoBlocker)
    → of_country code (add_networks ans code o g) ≡ loaded ans code (of_country code g) o
unfolding add_networks
add_networks-same ans code none g = refl
add_networks-same ans code (some []) g = refl
add_networks-same ans code (some (e ∷ es)) g = elim (Bool-cases (ans.loads code)) [
  | inl t ↦ rw t (add_loaded-same ans code (country_nets (e ∷ es) ans.open_sessions) g)
  | inr t ↦ rw t refl
]

add_networks-other :
    (ans : Answers) (code other : String) (o : Option (List Entry)) (g : GeoBlocker)
    → (code =? other) ≡ false
    → of_country other (add_networks ans code o g) ≡ of_country other g
unfolding add_networks
add_networks-other ans code other none g n = refl
add_networks-other ans code other (some []) g n = refl
add_networks-other ans code other (some (e ∷ es)) g n = elim (Bool-cases (ans.loads code)) [
  | inl t ↦ rw t (add_loaded-other ans code other (country_nets (e ∷ es) ans.open_sessions) g n)
  | inr t ↦ rw t refl
]

add_networks-reload :
    (ans : Answers) (code : String) (o : Option (List Entry)) (g : GeoBlocker)
    → (add_networks ans code o g).reload ≡ g.reload
unfolding add_networks add_loaded
add_networks-reload ans code none g = refl
add_networks-reload ans code (some []) g = refl
add_networks-reload ans code (some (e ∷ es)) g = ground arith

-- One round of the loop over the wanted countries.
add_one : Answers → String → GeoBlocker → GeoBlocker
unfolding add_country
add_one ans code g = if not (is_active code g) || g.reload then add_country ans code g else g

add_one-same :
    (ans : Answers) (code : String) (g : GeoBlocker)
    → of_country code (add_one ans code g) ≡ blocked ans g.reload true code (of_country code g)
unfolding add_one
add_one-same ans code g = elim (Bool-cases (not (is_active code g) || g.reload)) [
  | inl t ↦ rw t (add_networks-same ans code (ans.networks code) g)
  | inr t ↦ rw t refl
]

add_one-other :
    (ans : Answers) (code other : String) (g : GeoBlocker)
    → (code =? other) ≡ false
    → of_country other (add_one ans code g) ≡ of_country other g
unfolding add_one
add_one-other ans code other g n = elim (Bool-cases (not (is_active code g) || g.reload)) [
  | inl t ↦ rw t (add_networks-other ans code other (ans.networks code) g n)
  | inr t ↦ rw t refl
]

add_one-reload :
    (ans : Answers) (code : String) (g : GeoBlocker) → (add_one ans code g).reload ≡ g.reload
unfolding add_one
add_one-reload ans code g = elim (Bool-cases (not (is_active code g) || g.reload)) [
  | inl t ↦ rw t (add_networks-reload ans code (ans.networks code) g)
  | inr t ↦ rw t refl
]

pub add_wanted-absent :
    (ans : Answers) (code : String) (want : Dict String Bool) (g : GeoBlocker)
    → lookup code want ≡ none
    → of_country code (add_wanted ans want g) ≡ of_country code g
unfolding add_wanted add_one lookup
add_wanted-absent ans code [] g n = refl
add_wanted-absent ans code ((k, b) ∷ rest) g n = elim (Bool-cases (k =? code)) [
  | inl t ↦ absurd (ground arith)
  | inr t ↦
      add_wanted-absent ans code rest (add_one ans k g) (ground arith)
      ∙ add_one-other ans k code g t
]

pub add_wanted-present :
    (ans : Answers) (code : String) (want : Dict String Bool) (g : GeoBlocker)
    → Distinct want
    → has code want ≡ true
    → of_country code (add_wanted ans want g) ≡ blocked ans g.reload true code (of_country code g)
unfolding add_wanted add_one lookup
add_wanted-present ans code [] g d h = absurd (cc)
add_wanted-present ans code ((k, b) ∷ rest) g d h = elim (=?-cases k code) [
  | inl (t, e) ↦
      subst
        (λ c.
          of_country c (add_wanted ans rest (add_one ans k g))
          ≡ blocked ans g.reload true c (of_country c g))
        e (add_wanted-absent ans k rest (add_one ans k g) d.0 ∙ add_one-same ans k g)
  | inr (t, e) ↦
      add_wanted-present ans code rest (add_one ans k g) d.1 (ground arith)
      ∙ (λ i. blocked ans (add_one-reload ans k g i) true code (add_one-other ans k code g t i))
]
