-- ===== src/Queries.antt =====
-- backend/application/queries/threats.py: what the queries share. `decimal` is the float of a
-- decimal literal, given by its sign and its ten-thousandths.
pub mod Geo
pub mod Timeline
use port_sentinel.Base.Floats.{Floats}
use port_sentinel.Base.{String, ℕ, List, [], ◌∷◌, Bool, or_else, false, true}
use port_sentinel.Domain.Metadata.{Metadata}

pub record Threat (F : Type 0) : Type 0 where
  pub ip : String
  pub city : String
  pub country : String
  pub latitude : F
  pub longitude : F
  pub risk : ℕ
  pub org : String
  pub port : ℕ

abbrev pub simulated_threat :
    {F : Type 0}
    → (Bool → ℕ → F)
    → String
    → String
    → String
    → ℕ
    → Bool × ℕ
    → ℕ
    → String
    → ℕ
    → Threat F
simulated_threat decimal ip city country latitude (west, longitude) risk org port = record {
  ip = ip;
  city = city;
  country = country;
  latitude = decimal false latitude;
  longitude = decimal west longitude;
  risk = risk;
  org = org;
  port = port;
}

unfoldable pub simulated_threats : {F : Type 0} → (Bool → ℕ → F) → List (Threat F)
simulated_threats decimal =
    simulated_threat decimal "185.220.101.5" "Berlin" "DE" 525_200 (false, 134_050) 8
      "Tor Exit Node IP" 443
    ∷ simulated_threat decimal "45.147.230.12" "Moscow" "RU" 557_558 (false, 376_173) 9
        "Mirai Botnet Scanner" 23
    ∷ simulated_threat decimal "210.22.115.44" "Shanghai" "CN" 312_304 (false, 1_214_737) 7
        "SSH Brute-Forcer" 22
    ∷ simulated_threat decimal "103.20.122.9" "Seoul" "KR" 375_665 (false, 1_269_780) 6
        "Web Vulnerability Scanner" 8080
    ∷ simulated_threat decimal "198.51.100.72" "New York" "US" 407_128 (true, 740_060) 5
        "Unusual outbound sync" 443
    ∷ simulated_threat decimal "101.36.120.10" "Tokyo" "JP" 356_762 (false, 1_396_503) 8
        "Malicious Command Center" 9001
    ∷ []

-- A threat from what is known of an address, with the defaults of `meta.get`.
unfoldable pub make_threat : {F : Type 0} ⦃fl : Floats F⦄ → String → Metadata F → ℕ → ℕ → Threat F
make_threat ⦃fl⦄ ip meta risk port = record {
  ip = ip;
  city = or_else meta.city "Unknown";
  country = meta.country;
  latitude = or_else meta.latitude fl.zero;
  longitude = or_else meta.longitude fl.zero;
  risk = risk;
  org = meta.org;
  port = port;
}
