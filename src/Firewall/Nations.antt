-- ===== src/Firewall/Nations.antt =====
-- internal/firewall/geoblock.go: tests of the country blocks, and their theorems at concrete inputs.
use infrafence_agent.Base.{
  ℕ, true, false, not, ◌&&◌, ◌||◌, none, some, [], ◌∷◌, String, any, if◌then◌else◌, ◌≡◌, refl,
  arith,
}
use infrafence_agent.Base.Dict.{lookup, insert, delete, has}
use infrafence_agent.Base.Keys.{string_key}
use infrafence_agent.Firewall.Exclude.{
  Entry, net, exclude_addrs, country_nets, covers, append_without,
}
use infrafence_agent.Firewall.Excluded.{is_address, country_nets-covers}
use infrafence_agent.Firewall.GeoBlock.{
  GeoBlocker, Answers, is_active, wanted_countries, apply_country_blocks,
}
use infrafence_agent.Firewall.Loading.{IsMatched, of_country, blocked}
use infrafence_agent.Firewall.Blocked.{apply_country_blocks_lem}

abbrev cidr : ℕ → ℕ → Entry
cidr a n = net (record { base = a; ones = n })

-- 0.0.0.8/29 without 0.0.0.10.
split_test :
    exclude_addrs (cidr 8 29 ∷ []) (some 10 ∷ none ∷ some 10 ∷ [])
    ≡ (cidr 8 31 ∷ cidr 11 32 ∷ cidr 12 30 ∷ [], 1)
unfolding exclude_addrs append_without
split_test = refl

country_nets-covers_example :
    covers (country_nets (cidr 8 29 ∷ []) (some 10 ∷ [])) 10
    ≡ (covers (cidr 8 29 ∷ []) 10 && not (any (some 10 ∷ []) (is_address 10)))
country_nets-covers_example = country_nets-covers (cidr 8 29 ∷ []) (some 10 ∷ []) 10 (omega arith)

-- France was blocked; Germany is to be, and its networks can be read.
abbrev answers : Answers
answers = record {
  has_ipset = true;
  networks = λ c. some (cidr 8 29 ∷ []);
  open_sessions = [];
  loads = λ c. true;
  ensures = λ c. true;
}

abbrev france : GeoBlocker
france = record { active = ("FR", true) ∷ []; geo = ("FR", cidr 16 29 ∷ []) ∷ []; reload = false }

blocks_test :
    apply_country_blocks (λ c. c) false answers ("DE" ∷ "x" ∷ []) france
    ≡ record { active = ("DE", true) ∷ []; geo = ("DE", cidr 8 29 ∷ []) ∷ []; reload = false }
unfolding apply_country_blocks lookup insert delete country_nets
blocks_test = refl

france-IsMatched : IsMatched france
unfolding is_active lookup
france-IsMatched c = ground arith

apply_country_blocks_lem_example :
    IsMatched (apply_country_blocks (λ c. c) false answers ("DE" ∷ []) france)
    × ((code : String)
        → of_country code (apply_country_blocks (λ c. c) false answers ("DE" ∷ []) france) ≡ (
            if false || not true
            then of_country code france
            else blocked answers false
                (has code (wanted_countries (λ c. c) [] ("DE" ∷ [])))
                code
                (of_country code france)))
apply_country_blocks_lem_example =
    apply_country_blocks_lem (λ c. c) false answers ("DE" ∷ []) france france-IsMatched
