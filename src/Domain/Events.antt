-- ===== src/Domain/Events.antt =====
-- backend/domain/events/events.py. `event_id` and `timestamp`, which every event draws afresh,
-- are a `Stamp`.
use port_sentinel.Base.{ℕ, String, Bool, Option}

pub record Stamp : Type 0 where
  pub event_id : String
  pub timestamp : ℕ

pub record PolicyEvaluated : Type 0 where
  pub stamp : Stamp
  pub policy_id : String
  pub policy_name : String
  pub action : String
  pub target_port : ℕ
  pub target_pid : ℕ
  pub app_name : String
  pub risk_score : ℕ

pub record FirewallUpdated : Type 0 where
  pub stamp : Stamp
  pub port : ℕ
  pub action : String
  pub protocol : String
  pub reason : String
  pub success : Bool

pub record ApprovalRequested : Type 0 where
  pub stamp : Stamp
  pub approval_id : ℕ
  pub action_type : String
  pub target_identifier : String
  pub reason : String
  pub risk_score : ℕ

pub record ApprovalResolved : Type 0 where
  pub stamp : Stamp
  pub approval_id : ℕ
  pub status : String
  pub resolved_by : String

pub record AuditLogged : Type 0 where
  pub stamp : Stamp
  pub log_event_type : String
  pub message : String
  pub severity : String
  pub app_name : Option String
  pub port : Option ℕ
  pub pid : Option ℕ
  pub details : Option String

-- The events that the program publishes.
pub data Event : Type 0 where
  policy_evaluated : PolicyEvaluated → Event
  firewall_updated : FirewallUpdated → Event
  approval_requested : ApprovalRequested → Event
  approval_resolved : ApprovalResolved → Event
  audit_logged : AuditLogged → Event

-- `type(event)`, by its `event_type`.
abbrev pub event_type : Event → String
event_type (policy_evaluated _) = "policy_evaluated"
event_type (firewall_updated _) = "firewall_updated"
event_type (approval_requested _) = "approval_requested"
event_type (approval_resolved _) = "approval_resolved"
event_type (audit_logged _) = "audit_logged"
