-- ===== src/Database/Audit.antt =====
-- `SQLiteDB`: the audit log.
use port_sentinel.Database.Engine.{Engine}
use port_sentinel.Database.Tables.{Database, AuditLog}
use port_sentinel.Base.{ℕ, String, Option, List, nat_keys, text_keys, take}

-- The arguments of `insert_audit_log`.
pub record AuditRecord : Type 0 where
  pub event_type : String
  pub message : String
  pub app_name : Option String
  pub port : Option ℕ
  pub pid : Option ℕ
  pub severity : String
  pub details : Option String

unfoldable pub make_audit : AuditRecord → ℕ → ℕ → AuditLog
make_audit a now id = record {
  id = id;
  timestamp = now;
  event_type = a.event_type;
  app_name = a.app_name;
  port = a.port;
  pid = a.pid;
  severity = a.severity;
  message = a.message;
  details = a.details;
}

module _ (sql : Engine) {F : Type 0} where
  unfoldable pub insert_audit_log : Database sql F → AuditRecord → ℕ → Database sql F
  insert_audit_log db a now = record db {
    audit =
        sql.add AuditLog db.audit (make_audit a now (sql.next_id AuditLog (λ r. r.id) db.audit));
  }

  unfoldable pub get_audit_logs : Database sql F → ℕ → List AuditLog
  get_audit_logs db limit =
      take limit (sql.order_by_desc AuditLog (λ r. r.timestamp) (sql.rows AuditLog db.audit))
