-- ===== src/Threats.antt =====
-- backend/core/threat_intel.py. A call of `get_ip_metadata` and a fetch in the background are one
-- step each; the web service's answer and the check of an address are given.
pub mod Holding
pub mod Freshness
use port_sentinel.Base.{
  ◌∷◌, String, Bool, Option, List, ℕ, none, [], true, text_keys, some, if◌then◌else◌, contains,
  ◌==◌, ◌||◌, false, ltb, length, not, or_else, ◌+◌,
}
use port_sentinel.Base.Dict.{Dict, get, put, remove}
use port_sentinel.Base.Floats.{Floats}
use port_sentinel.Base.Time.{seconds}
use port_sentinel.Base.Words.{codes, starts_with}
use port_sentinel.Domain.Metadata.{Metadata}

abbrev pub max_cache_size : ℕ
max_cache_size = 10_000

-- `_CACHE_TTL`, in seconds
abbrev pub cache_ttl : ℕ
cache_ttl = 3600

-- `metadata_cache` has the oldest entry first.
pub record ThreatIntel (F : Type 0) : Type 0 where
  pub malicious_ips : List String
  pub metadata_cache : Dict String (Metadata F)
  pub cache_timestamps : Dict String ℕ

-- The fields of a good answer, with the defaults where it lacks one or its location is no number.
pub record Fetched (F : Type 0) : Type 0 where
  pub org : String
  pub city : String
  pub country : String
  pub latitude : F
  pub longitude : F

unfoldable pub is_local : String → Bool
is_local ip =
    ip == ""
    || starts_with (codes "127.") (codes ip)
    || starts_with (codes "192.168.") (codes ip)
    || starts_with (codes "10.") (codes ip)

abbrev pub short_metadata : {F : Type 0} → String → String → Metadata F
short_metadata org country = record {
  org = org;
  country = country;
  risk = 0;
  city = none;
  latitude = none;
  longitude = none;
}

-- What a call returns and leaves, and when it starts a fetch, if it does.
pub record Lookup (F : Type 0) : Type 0 where
  pub answer : Metadata F
  pub after : ThreatIntel F
  pub fetches : Option ℕ

module _ {F : Type 0} where
  abbrev pub new_threat_intel : ThreatIntel F
  new_threat_intel = record { malicious_ips = []; metadata_cache = []; cache_timestamps = [] }

  unfoldable pub get_risk_score : ThreatIntel F → String → ℕ
  get_risk_score s ip = if contains s.malicious_ips ip then 10 else 0

  unfoldable pub is_malicious : ThreatIntel F → String → Bool
  is_malicious s ip = contains s.malicious_ips ip

module _ {F : Type 0} ⦃fl : Floats F⦄ where
  abbrev pub resolving : Metadata F
  resolving = record {
    org = "Resolving...";
    country = "??";
    risk = 0;
    city = none;
    latitude = some fl.zero;
    longitude = some fl.zero;
  }

  -- The statements after a miss: the address is marked, and a fetch started.
  unfoldable pub start_fetch : ThreatIntel F → String → ℕ → Lookup F
  start_fetch s ip now = record {
    answer = resolving;
    after = record s {
      metadata_cache = put s.metadata_cache ip resolving;
      cache_timestamps = put s.cache_timestamps ip now;
    };
    fetches = some now;
  }

  abbrev pub forget : ThreatIntel F → String → ThreatIntel F
  forget s ip = record s {
    metadata_cache = remove s.metadata_cache ip;
    cache_timestamps = remove s.cache_timestamps ip;
  }

  abbrev pub look_up : Option (Metadata F) → ThreatIntel F → String → (ℕ → ℕ) → Lookup F
  look_up none s ip clock = start_fetch s ip (clock 0)
  look_up (some m) s ip clock =
      if ltb (clock 0) (or_else (get s.cache_timestamps ip) 0 + seconds cache_ttl)
      then record {
        answer = m;
        after = record s { metadata_cache = put (remove s.metadata_cache ip) ip m };
        fetches = none;
      }
      else start_fetch (forget s ip) ip (clock 1)

  unfoldable pub get_ip_metadata : (String → Bool) → ThreatIntel F → String → (ℕ → ℕ) → Lookup F
  get_ip_metadata is_address s ip clock =
      if is_local ip
      then record { answer = short_metadata "Local Network" "LOCAL"; after = s; fetches = none }
      else if not (is_address ip)
      then record { answer = short_metadata "Invalid IP" "??"; after = s; fetches = none }
      else look_up (get s.metadata_cache ip) s ip clock

  unfoldable pub fetched_metadata : ThreatIntel F → String → Fetched F → Metadata F
  fetched_metadata s ip data_ = record {
    org = data_.org;
    city = some data_.city;
    country = data_.country;
    latitude = some data_.latitude;
    longitude = some data_.longitude;
    risk = if contains s.malicious_ips ip then 10 else 0;
  }

  abbrev pub drop_oldest : Dict String (Metadata F) → ThreatIntel F → ThreatIntel F
  drop_oldest [] s = s
  drop_oldest ((oldest, m) ∷ rest) s = forget s oldest

  -- `_fetch_background`, with nothing where the service does not answer well.
  unfoldable pub fetch_background : ThreatIntel F → String → Option (Fetched F) → ℕ → ThreatIntel F
  fetch_background s ip none now = s
  fetch_background s ip (some found) now =
      let stored = record s {
        metadata_cache = put s.metadata_cache ip (fetched_metadata s ip found);
        cache_timestamps = put s.cache_timestamps ip now;
      } in
      if ltb max_cache_size (length stored.metadata_cache)
      then drop_oldest stored.metadata_cache stored
      else stored
