-- ===== src/Database/Tables.antt =====
-- The tables of backend/core/models.py. A row's fields are those of its class, in order.
use port_sentinel.Database.Engine.{Engine}
use port_sentinel.Base.{ℕ, String, Option}

pub record TrafficHistory (F : Type 0) : Type 0 where
  pub id : ℕ
  pub timestamp : ℕ
  pub port : ℕ
  pub pid : ℕ
  pub app_name : String
  pub kb_s_in : F
  pub kb_s_out : F
  pub protocol : String
  pub direction : String
  pub risk_score : ℕ

pub record ProcessMap : Type 0 where
  pub pid : ℕ
  pub app_name : String
  pub first_seen : ℕ
  pub last_seen : ℕ

pub record ConfigCache : Type 0 where
  pub key : String
  pub value : String
  pub updated_at : ℕ

pub record BlockedPort : Type 0 where
  pub port : ℕ
  pub block_type : String
  pub blocked_at : ℕ
  pub reason : String

pub record AuditLog : Type 0 where
  pub id : ℕ
  pub timestamp : ℕ
  pub event_type : String
  pub app_name : Option String
  pub port : Option ℕ
  pub pid : Option ℕ
  pub severity : String
  pub message : String
  pub details : Option String

pub record AnalystApproval : Type 0 where
  pub id : ℕ
  pub created_at : ℕ
  pub action_type : String
  pub target_identifier : String
  pub reason : String
  pub status : String
  pub risk_score : ℕ
  pub resolved_at : Option ℕ
  pub resolved_by : Option String

pub record DashboardLayout : Type 0 where
  pub id : ℕ
  pub name : String
  pub layout_json : String
  pub updated_at : ℕ

pub record UserPreference : Type 0 where
  pub id : ℕ
  pub key : String
  pub value : String

-- The tables that a connected database holds.
pub record Database (sql : Engine) (F : Type 0) : Type 0 where
  pub traffic : sql.Rows (TrafficHistory F)
  pub processes : sql.Rows ProcessMap
  pub configs : sql.Rows ConfigCache
  pub blocked : sql.Rows BlockedPort
  pub audit : sql.Rows AuditLog
  pub approvals : sql.Rows AnalystApproval
  pub layouts : sql.Rows DashboardLayout
  pub preferences : sql.Rows UserPreference
