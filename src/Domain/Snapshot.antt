-- ===== src/Domain/Snapshot.antt =====
-- `PortSnapshot` of backend/application/services/metrics_service.py, over a type `F` of rates.
use port_sentinel.Base.{ℕ, String}

pub record PortSnapshot (F : Type 0) : Type 0 where
  pub timestamp : ℕ
  pub port : ℕ
  pub pid : ℕ
  pub app_name : String
  pub kb_s_in : F
  pub kb_s_out : F
  pub protocol : String
  pub direction : String
  pub risk_score : ℕ
  pub remote_ip : String
  pub org : String
  pub country : String
