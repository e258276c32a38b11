-- ===== src/Commands/Requests.antt =====
-- backend/application/commands/approvals.py.
use port_sentinel.Base.Text.{concat, show}
use port_sentinel.Bus.{EventBus, publish}
use port_sentinel.Commands.Handlers.{Handler, handler_keys, client, audit}
use port_sentinel.Commands.World.{Bridge, World, now, with_database}
use port_sentinel.Database.Approvals.{create_analyst_approval, update_approval_status}
use port_sentinel.Database.Engine.{Engine}
use port_sentinel.Domain.Events.{Stamp, Event, approval_requested, approval_resolved}
use port_sentinel.Base.{
  ℕ, String, Option, none, some, text_keys, if◌then◌else◌, ◌∷◌, [], or_else, ◌==◌,
}

pub record RequestApprovalCommand : Type 0 where
  pub pid : ℕ
  pub app_name : Option String
  pub reason : String

pub record ResolveApprovalCommand : Type 0 where
  pub approval_id : ℕ
  pub status : String
  pub resolved_by : String

-- The dictionary that `handle_resolve` returns.
pub data ResolveAnswer : Type 0 where
  not_found : ResolveAnswer
  resolved : (approval_id : ℕ) (status : String) → ResolveAnswer

module _ (sql : Engine) {F B X : Type 0} (bus : EventBus String Handler)
    (bridge : Option (Bridge B X)) where
  unfoldable pub publish_event : World sql F B → Event → World sql F B
  publish_event w e = (publish (client sql bridge) bus e w).0

  -- The new state, and the id in the answer.
  unfoldable pub handle_request : Stamp → World sql F B → RequestApprovalCommand → World sql F B × ℕ
  handle_request stamp w cmd =
      let (db, id) =
        create_analyst_approval sql w.database "suspend_process" (show cmd.pid) cmd.reason 0
          (now w) in
      let told = publish_event (with_database w db) (
        approval_requested (record {
          stamp = stamp;
          approval_id = id;
          action_type = "suspend_process";
          target_identifier = show cmd.pid;
          reason = cmd.reason;
          risk_score = 0;
        })) in
      (
        audit sql told (record {
          event_type = "approval_requested";
          message = concat ("Approval requested for PID " ∷ show cmd.pid ∷ []);
          app_name = none;
          port = none;
          pid = none;
          severity = "info";
          details = some (
              concat (
                "App: "
                ∷ or_else cmd.app_name "None"
                ∷ ", Reason: "
                ∷ cmd.reason
                ∷ ", Approval ID: "
                ∷ show id
                ∷ []));
        }),
        id,
      )

  unfoldable pub record_resolution : Stamp → World sql F B → ResolveApprovalCommand → World sql F B
  record_resolution stamp w cmd =
      audit sql
        (publish_event w (
          approval_resolved (record {
            stamp = stamp;
            approval_id = cmd.approval_id;
            status = cmd.status;
            resolved_by = cmd.resolved_by;
          })))
        (record {
          event_type = "approval_resolved";
          message = concat (
              "Approval "
              ∷ show cmd.approval_id
              ∷ " "
              ∷ cmd.status
              ∷ " by "
              ∷ cmd.resolved_by
              ∷ []);
          app_name = none;
          port = none;
          pid = none;
          severity = if cmd.status == "approved" then "info" else "warning";
          details =
              some
                (concat ("Approval ID: " ∷ show cmd.approval_id ∷ ", Status: " ∷ cmd.status ∷ []));
        })

  -- The clock is read only when the approval is found.
  unfoldable pub handle_resolve :
      Stamp → World sql F B → ResolveApprovalCommand → World sql F B × ResolveAnswer
  handle_resolve stamp w cmd =
      let (db, success) =
        update_approval_status sql w.database cmd.approval_id cmd.status cmd.resolved_by (now w) in
      if success
      then (record_resolution stamp (with_database w db) cmd, resolved cmd.approval_id cmd.status)
      else (w, not_found)
