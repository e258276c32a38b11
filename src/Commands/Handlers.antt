-- ===== src/Commands/Handlers.antt =====
-- backend/application/events/handlers.py. Each handler catches what it raises; the database does
-- not fail.
use port_sentinel.Base.Result.{Result, ok, raise}
use port_sentinel.Base.Text.{show, concat}
use port_sentinel.Bus.{EventBus, subscribe, Client}
use port_sentinel.Commands.World.{Bridge, World, now, with_database}
use port_sentinel.Database.Approvals.{create_analyst_approval}
use port_sentinel.Database.Audit.{AuditRecord, insert_audit_log}
use port_sentinel.Database.Engine.{Engine}
use port_sentinel.Database.Stores.{add_blocked_port}
use port_sentinel.Domain.Events.{
  Event, policy_evaluated, firewall_updated, audit_logged, PolicyEvaluated, FirewallUpdated,
  AuditLogged, event_type,
}
use port_sentinel.Base.{
  String, Bool, Option, none, some, text_keys, if◌then◌else◌, true, false, ◌≡◌, ◌∷◌, HasEq, ◌==◌,
  [], ◌↔◌, arith,
}

-- The methods of `EventHandlers`.
pub data Handler : Type 0 where
  on_policy_evaluated on_firewall_updated on_audit_logged : Handler

abbrev pub handler_same : Handler → Handler → Bool
handler_same on_policy_evaluated on_policy_evaluated = true
handler_same on_firewall_updated on_firewall_updated = true
handler_same on_audit_logged on_audit_logged = true
handler_same _ _ = false

pub handler_same_iff : (a b : Handler) → (handler_same a b ≡ true) ↔ (a ≡ b)
handler_same_iff on_policy_evaluated b = ground arith
handler_same_iff on_firewall_updated b = ground arith
handler_same_iff on_audit_logged b = ground arith

instance abbrev pub handler_keys : HasEq Handler
handler_keys = record { same = handler_same; same_iff = handler_same_iff }

unfoldable pub register_all : EventBus String Handler → EventBus String Handler
register_all bus =
    subscribe
      (subscribe (subscribe bus "policy_evaluated" on_policy_evaluated) "firewall_updated"
        on_firewall_updated)
      "audit_logged" on_audit_logged

-- `str(b)`
abbrev pub show_bool : Bool → String
show_bool true = "True"
show_bool false = "False"

abbrev pub policy_audit : PolicyEvaluated → String → String → AuditRecord
policy_audit e severity message = record {
  event_type = "policy_trigger";
  message = message;
  app_name = some e.app_name;
  port = none;
  pid = none;
  severity = severity;
  details = some (
      concat (
        "Action: "
        ∷ e.action
        ∷ ", Port: "
        ∷ show e.target_port
        ∷ ", PID: "
        ∷ show e.target_pid
        ∷ []));
}

module _ (sql : Engine) {F B : Type 0} where
  unfoldable pub audit : World sql F B → AuditRecord → World sql F B
  audit w a = with_database w (insert_audit_log sql w.database a (now w))

  -- The last branch, also taken for a block when there is no bridge.
  unfoldable pub notify_policy : World sql F B → PolicyEvaluated → World sql F B
  notify_policy w e = audit w (
      policy_audit e "info"
        (concat ("Policy '" ∷ e.policy_name ∷ "' notification for " ∷ e.app_name ∷ [])))

  unfoldable pub request_for_policy : World sql F B → PolicyEvaluated → World sql F B
  request_for_policy w e =
      let (db, id) =
        create_analyst_approval sql w.database "suspend_process" (show e.target_pid)
          "Policy trigger" 0 (now w) in
      audit (with_database w db) (
        policy_audit e "warning"
          (concat ("Analyst Approval requested for PID " ∷ show e.target_pid ∷ [])))

  -- After `block_port` returned, with whatever result.
  unfoldable pub record_policy_block : World sql F B → PolicyEvaluated → World sql F B
  record_policy_block w e =
      audit
        (with_database w
          (add_blocked_port sql w.database e.target_port "hard" "Policy Engine Auto-Block" (now w)))
        (policy_audit e "critical"
          (concat ("Automated block triggered on Port " ∷ show e.target_port ∷ [])))

  abbrev pub after_block :
      {X : Type 0} → Result X Bool → World sql F B → PolicyEvaluated → World sql F B
  after_block (raise x) w e = w
  after_block (ok done) w e = record_policy_block w e

  unfoldable pub handle_policy :
      {X : Type 0} → Option (Bridge B X) → World sql F B → PolicyEvaluated → World sql F B
  handle_policy none w e =
      if e.action == "request_approval" then request_for_policy w e else notify_policy w e
  handle_policy (some bridge) w e =
      if e.action == "block"
      then (let (result, b) = bridge.block_port e.target_port bridge.default_protocol w.bridge in
          after_block result (record w { bridge = b }) e)
      else if e.action == "request_approval"
      then request_for_policy w e
      else notify_policy w e

  unfoldable pub handle_firewall : World sql F B → FirewallUpdated → World sql F B
  handle_firewall w e = audit w (record {
    event_type = concat ("firewall_" ∷ e.action ∷ []);
    message = concat ("Firewall " ∷ e.action ∷ " on port " ∷ show e.port ∷ "/" ∷ e.protocol ∷ []);
    app_name = none;
    port = some e.port;
    pid = none;
    severity = if e.action == "block" then "critical" else "warning";
    details = some (concat ("Reason: " ∷ e.reason ∷ ", Success: " ∷ show_bool e.success ∷ []));
  })

  unfoldable pub handle_audit : World sql F B → AuditLogged → World sql F B
  handle_audit w e = audit w (record {
    event_type = e.log_event_type;
    message = e.message;
    app_name = e.app_name;
    port = e.port;
    pid = e.pid;
    severity = e.severity;
    details = e.details;
  })

  -- A call of a handler; on an event of another type it fails on a missing attribute, which it
  -- catches.
  abbrev pub run_handler :
      {X : Type 0} → Option (Bridge B X) → Handler → Event → World sql F B → World sql F B
  run_handler bridge on_policy_evaluated (policy_evaluated e) w = handle_policy bridge w e
  run_handler bridge on_firewall_updated (firewall_updated e) w = handle_firewall w e
  run_handler bridge on_audit_logged (audit_logged e) w = handle_audit w e
  run_handler bridge _ _ w = w

  abbrev pub client :
      {X : Type 0} → Option (Bridge B X) → Client String Handler Event (World sql F B)
  client bridge = record {
    run = λ h e w. (run_handler bridge h e w, true);
    event_type = event_type;
  }
