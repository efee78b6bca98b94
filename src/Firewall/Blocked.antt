-- ===== src/Firewall/Blocked.antt =====
-- internal/firewall/geoblock.go: what ApplyCountryBlocks makes of each country.
use infrafence_agent.Base.{
  Bool, true, false, not, ◌||◌, Option, none, some, List, [], ◌∷◌, String, ◌==◌, if◌then◌else◌,
  is_some, ◌≡◌, ◌⊎◌, subst, refl, ap, ◌∙◌, sym, arith, Bool-cases, Option-cases, inl, inr,
}
use infrafence_agent.Base.Dict.{Dict, lookup, insert, has, Distinct, lookup-delete, insert-Distinct}
use infrafence_agent.Base.Keys.{string_key, ◌=?◌, =?-cases, =?-refl}
use infrafence_agent.Base.Text.{codes as codes_of}
use infrafence_agent.Firewall.Exclude.{Entry}
use infrafence_agent.Firewall.GeoBlock.{
  GeoBlocker, Answers, is_active, remove_country, wanted_countries, remove_others, apply_wanted,
  apply_country_blocks, byte_length,
}
use infrafence_agent.Firewall.Loading.{
  Of, of_country, loaded, blocked, IsMatched, add_wanted-absent, add_wanted-present,
}

remove_country-same :
    (code : String) (g : GeoBlocker) → of_country code (remove_country code g) ≡ (false, none)
unfolding remove_country is_active
remove_country-same code g =
    ground (arith, =?-refl code, lookup-delete code code g.geo, lookup-delete code code g.active)

remove_country-other :
    (code other : String) (g : GeoBlocker)
    → (code =? other) ≡ false
    → of_country other (remove_country code g) ≡ of_country other g
unfolding remove_country is_active
remove_country-other code other g n =
    ground (arith, lookup-delete code other g.geo, lookup-delete code other g.active)

remove_one : Dict String Bool → String → GeoBlocker → GeoBlocker
unfolding remove_country
remove_one want code g = if has code want then g else remove_country code g

remove_one-other :
    (want : Dict String Bool) (k code : String) (g : GeoBlocker)
    → (k =? code) ≡ false
    → of_country code (remove_one want k g) ≡ of_country code g
unfolding remove_one
remove_one-other want k code g n = elim (Bool-cases (has k want)) [
  | inl t ↦ rw t refl
  | inr t ↦ rw t (remove_country-other k code g n)
]

remove_one-unwanted :
    (want : Dict String Bool) (code : String) (g : GeoBlocker)
    → has code want ≡ false
    → of_country code (remove_one want code g) ≡ (false, none)
unfolding remove_one
remove_one-unwanted want code g n = rw n (remove_country-same code g)

remove_one-wanted :
    (want : Dict String Bool) (code : String) (g : GeoBlocker)
    → has code want ≡ true
    → remove_one want code g ≡ g
unfolding remove_one
remove_one-wanted want code g w = rw w refl

-- A country that is not among those to go through, or is wanted, is left alone.
remove_others-kept :
    (want : Dict String Bool) (code : String) (keys : Dict String Bool) (g : GeoBlocker)
    → (has code want ≡ true) ⊎ (lookup code keys ≡ none)
    → of_country code (remove_others want keys g) ≡ of_country code g
unfolding remove_others remove_one lookup
remove_others-kept want code [] g h = refl
remove_others-kept want code ((k, b) ∷ rest) g h = elim (=?-cases k code) [
  | inl (t, e) ↦ elim h [
    | inr n ↦ absurd (ground arith)
    | inl w ↦
        let w' : has k want ≡ true = subst (λ c. has c want ≡ true) (sym e) w in
        remove_others-kept want code rest (remove_one want k g) (inl w)
        ∙ ap (of_country code) (remove_one-wanted want k g w')
  ]
  | inr (t, e) ↦
      remove_others-kept want code rest (remove_one want k g)
        (elim h [ inl w ↦ inl w | inr n ↦ inr (ground arith) ])
      ∙ remove_one-other want k code g t
]

remove_others-stays :
    (want : Dict String Bool) (code : String) (keys : Dict String Bool) (g : GeoBlocker)
    → has code want ≡ false
    → of_country code g ≡ (false, none)
    → of_country code (remove_others want keys g) ≡ (false, none)
unfolding remove_others remove_one
remove_others-stays want code [] g n h = h
remove_others-stays want code ((k, b) ∷ rest) g n h =
    remove_others-stays want code rest (remove_one want k g) n (elim (=?-cases k code) [
      | inl (t, e) ↦
          subst (λ c. of_country code (remove_one want c g) ≡ (false, none)) (sym e)
            (remove_one-unwanted want code g n)
      | inr (t, e) ↦ remove_one-other want k code g t ∙ h
    ])

remove_others-gone :
    (want : Dict String Bool) (code : String) (keys : Dict String Bool) (g : GeoBlocker)
    → has code want ≡ false
    → has code keys ≡ true
    → of_country code (remove_others want keys g) ≡ (false, none)
unfolding remove_others remove_one lookup
remove_others-gone want code [] g n h = absurd (cc)
remove_others-gone want code ((k, b) ∷ rest) g n h = elim (=?-cases k code) [
  | inl (t, e) ↦ remove_others-stays want code rest (remove_one want k g) n (
      subst (λ c. of_country code (remove_one want c g) ≡ (false, none)) (sym e)
        (remove_one-unwanted want code g n))
  | inr (t, e) ↦ remove_others-gone want code rest (remove_one want k g) n (ground arith)
]

remove_others-reload :
    (want keys : Dict String Bool) (g : GeoBlocker) → (remove_others want keys g).reload ≡ g.reload
unfolding remove_others remove_one remove_country
remove_others-reload want [] g = refl
remove_others-reload want ((k, b) ∷ rest) g =
    remove_others-reload want rest (remove_one want k g) ∙ ground arith

wanted_countries-Distinct :
    (normal : String → String) (codes : List String) (want : Dict String Bool)
    → Distinct want
    → Distinct (wanted_countries normal want codes)
unfolding wanted_countries
wanted_countries-Distinct normal [] want d = d
wanted_countries-Distinct normal (c ∷ cs) want d =
    wanted_countries-Distinct normal cs
      (if byte_length (codes_of (normal c)) == 2 then insert (normal c) true want else want)
      (ground (arith, insert-Distinct (normal c) true want d))

-- A country that is not wanted is gone once the others are removed.
unwanted_gone :
    (want : Dict String Bool) (g : GeoBlocker) (code : String)
    → has code want ≡ false
    → IsMatched g
    → of_country code (remove_others want g.active g) ≡ (false, none)
unfolding is_active
unwanted_gone want g code n m = elim (Option-cases (lookup code g.active)) [
  | inr (b, e) ↦ remove_others-gone want code g.active g n (rw e refl)
  | inl e ↦ remove_others-kept want code g.active g (inr e) ∙ ground (arith, m code, e)
]

apply_wanted-blocked :
    (ans : Answers) (want : Dict String Bool) (g : GeoBlocker) (code : String)
    → Distinct want
    → IsMatched g
    → of_country code (apply_wanted ans want g)
      ≡ blocked ans g.reload (has code want) code (of_country code g)
unfolding apply_wanted
apply_wanted-blocked ans want g code d m =
    let kept = remove_others want g.active g in
    elim (Bool-cases (has code want)) [
      | inl w ↦ rw w (
          add_wanted-present ans code want kept d w ∙ (λ i.
            blocked ans (remove_others-reload want g.active g i) true code
              (remove_others-kept want code g.active g (inl w) i)))
      | inr n ↦
          rw n (add_wanted-absent ans code want kept (ground arith) ∙ unwanted_gone want g code n m)
    ]

loaded_matched :
    (ans : Answers) (code : String) (old : Of) (o : Option (List Entry))
    → is_some old.1 ≡ old.0
    → is_some (loaded ans code old o).1 ≡ (loaded ans code old o).0
loaded_matched ans code old none h = h
loaded_matched ans code old (some []) h = h
loaded_matched ans code old (some (e ∷ es)) h = elim (Bool-cases (ans.loads code)) [
  | inr t ↦ rw t h
  | inl t ↦ elim (Bool-cases (ans.ensures code || old.0)) [
    | inl u ↦ rw (t, u) refl
    | inr u ↦ rw (t, u) refl
  ]
]

blocked_matched :
    (ans : Answers) (reload want : Bool) (code : String) (old : Of)
    → is_some old.1 ≡ old.0
    → is_some (blocked ans reload want code old).1 ≡ (blocked ans reload want code old).0
blocked_matched ans reload false code old h = refl
blocked_matched ans reload true code old h = elim (Bool-cases (not old.0 || reload)) [
  | inl t ↦ rw t (loaded_matched ans code old (ans.networks code) h)
  | inr t ↦ rw t h
]

-- After ApplyCountryBlocks each wanted country is blocked with the networks that the database gives,
-- less the exempt addresses, where it was to be loaded and could be; a country that was blocked stays
-- so with the set it had where it could not; and no other country is blocked. A country has a set in
-- the chain exactly when it is blocked. Nothing changes while protection is off or without ipset.
pub apply_country_blocks_lem :
    (normal : String → String) (disabled : Bool) (ans : Answers) (countries : List String)
    (g : GeoBlocker)
    → IsMatched g
    → IsMatched (apply_country_blocks normal disabled ans countries g)
      × ((code : String)
          → of_country code (apply_country_blocks normal disabled ans countries g) ≡ (
              if disabled || not ans.has_ipset
              then of_country code g
              else blocked ans g.reload
                  (has code (wanted_countries normal [] countries))
                  code
                  (of_country code g)))
unfolding apply_country_blocks
apply_country_blocks_lem normal disabled ans countries g m =
    let want = wanted_countries normal [] countries in
    elim (Bool-cases (disabled || not ans.has_ipset)) [
      | inl t ↦ rw t (m, λ code. refl)
      | inr t ↦
          let each = λ (code : String).
            apply_wanted-blocked ans want g code (wanted_countries-Distinct normal countries [] tt)
              m in
          rw t (
            (λ code.
                ap (λ (p : Of). is_some p.1) (each code)
                ∙ blocked_matched ans g.reload (has code want) code (of_country code g) (m code)
                ∙ sym (ap (λ (p : Of). p.0) (each code))),
            each,
          )
    ]
