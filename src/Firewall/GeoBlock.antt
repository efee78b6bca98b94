-- ===== src/Firewall/GeoBlock.antt =====
-- internal/firewall/geoblock.go: the blocked countries. Each has a set in the kernel, which fw.geo lists
-- by its name; here it goes by the country's code. What the database and the commands answer is a
-- record of functions, by country.
use infrafence_agent.Base.{
  ℕ, ◌+◌, Bool, true, false, not, ◌||◌, Option, none, some, List, [], ◌∷◌, String, ltb, ◌==◌,
  if◌then◌else◌,
}
use infrafence_agent.Base.Dict.{Dict, insert, delete, has}
use infrafence_agent.Base.Keys.{string_key}
use infrafence_agent.Base.Text.{codes}
use infrafence_agent.Firewall.Exclude.{Entry, country_nets}

-- Of `active` and of the desired countries only true is stored, so a key that is there reads true.
pub record GeoBlocker : Type 0 where
  pub active : Dict String Bool
  pub geo : Dict String (List Entry)
  pub reload : Bool

-- `networks` is the provider, none on an error; `loads` and `ensures` tell whether replaceNetSet and
-- Ensure succeed; `open_sessions` are the exempt addresses, read once for a call.
pub record Answers : Type 0 where
  pub has_ipset : Bool
  pub networks : String → Option (List Entry)
  pub open_sessions : List (Option ℕ)
  pub loads : String → Bool
  pub ensures : String → Bool

unfoldable pub is_active : String → GeoBlocker → Bool
is_active cc g = has cc g.active

-- Once the set is loaded: the chain gets it, or a country that was not blocked is forgotten again.
unfoldable pub add_loaded : Answers → String → List Entry → GeoBlocker → GeoBlocker
unfolding is_active
add_loaded ans cc cidrs g =
    if ans.ensures cc
    then record g { geo = insert cc cidrs g.geo; active = insert cc true g.active }
    else if is_active cc g
    then record g { geo = insert cc cidrs g.geo }
    else record g { geo = delete cc g.geo }

unfoldable pub add_networks : Answers → String → Option (List Entry) → GeoBlocker → GeoBlocker
unfolding add_loaded
add_networks ans cc none g = g
add_networks ans cc (some []) g = g
add_networks ans cc (some (e ∷ es)) g =
    if ans.loads cc then add_loaded ans cc (country_nets (e ∷ es) ans.open_sessions) g else g

-- `addCountry`.
unfoldable pub add_country : Answers → String → GeoBlocker → GeoBlocker
unfolding add_networks
add_country ans cc g = add_networks ans cc (ans.networks cc) g

-- `removeCountry`: whatever the commands answer.
unfoldable pub remove_country : String → GeoBlocker → GeoBlocker
remove_country cc g = record g { geo = delete cc g.geo; active = delete cc g.active }

-- The bytes of a text in UTF-8, which is what `len` counts.
unfoldable pub byte_length : List ℕ → ℕ
byte_length [] = 0
byte_length (c ∷ s) =
    (if ltb c 0x80 then 1 else if ltb c 0x800 then 2 else if ltb c 0x10000 then 3 else 4)
    + byte_length s

-- `normal` is `strings.ToUpper` after `strings.TrimSpace`. An empty code has not two bytes.
unfoldable pub wanted_countries :
    (String → String) → Dict String Bool → List String → Dict String Bool
unfolding byte_length
wanted_countries normal want [] = want
wanted_countries normal want (c ∷ cs) =
    wanted_countries normal
      (if byte_length (codes (normal c)) == 2 then insert (normal c) true want else want) cs

unfoldable pub remove_others : Dict String Bool → Dict String Bool → GeoBlocker → GeoBlocker
unfolding remove_country
remove_others want [] g = g
remove_others want ((cc, b) ∷ rest) g =
    remove_others want rest (if has cc want then g else remove_country cc g)

unfoldable pub add_wanted : Answers → Dict String Bool → GeoBlocker → GeoBlocker
unfolding is_active add_country
add_wanted ans [] g = g
add_wanted ans ((cc, b) ∷ rest) g =
    add_wanted ans rest (if not (is_active cc g) || g.reload then add_country ans cc g else g)

unfoldable pub apply_wanted : Answers → Dict String Bool → GeoBlocker → GeoBlocker
unfolding remove_others add_wanted
apply_wanted ans want g = record (add_wanted ans want (remove_others want g.active g)) {
  reload = false;
}

-- `ApplyCountryBlocks`.
unfoldable pub apply_country_blocks :
    (String → String) → Bool → Answers → List String → GeoBlocker → GeoBlocker
unfolding apply_wanted wanted_countries
apply_country_blocks normal disabled ans countries g =
    if disabled || not ans.has_ipset
    then g
    else apply_wanted ans (wanted_countries normal [] countries) g

-- `Reload`.
unfoldable pub reload_sets : GeoBlocker → GeoBlocker
reload_sets g = record g { reload = true }
