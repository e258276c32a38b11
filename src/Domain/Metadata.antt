-- ===== src/Domain/Metadata.antt =====
-- The dictionaries that `ThreatIntel.get_ip_metadata` returns, and the service as its callers see
-- it. `T` is the service's state.
use port_sentinel.Base.{ℕ, String, Option}

pub record Metadata (F : Type 0) : Type 0 where
  pub org : String
  pub country : String
  pub risk : ℕ
  pub city : Option String
  pub latitude : Option F
  pub longitude : Option F

-- `get_ip_metadata` at a time.
pub record ThreatService (F T : Type 0) : Type 0 where
  pub get_ip_metadata : T → String → ℕ → Metadata F × T
