-- ===== src/Commands/Resolving.antt =====
-- What a resolution and a request of an analyst record.
use port_sentinel.Base.Text.{show}
use port_sentinel.Commands.Deciding.{trail-audit}
use port_sentinel.Base.Dict.{get, put}
use port_sentinel.Commands.Handlers.{register_all, audit, handler_keys}
use port_sentinel.Database.Approvals.{
  update_approval_status, get_pending_approvals, create_analyst_approval,
}
use mathlib.Core.Option
use port_sentinel.Database.Keyed.{with_key}
use port_sentinel.Database.Audit.{insert_audit_log, AuditRecord}
use port_sentinel.Bus.{publish, call_all, subscribe, add_handler, handlers_of}
use port_sentinel.Database.Reviews.{
  update_approval_status_correct, resolved_row, approval, HasIds, pending, new_approval,
  create_analyst_approval_correct,
}
use port_sentinel.Commands.Blocking.{trail, started_bus}
use port_sentinel.Database.Tables.{Database, AnalystApproval}
use port_sentinel.Commands.Requests.{
  record_resolution, publish_event, ResolveApprovalCommand, handle_resolve, not_found, resolved,
  handle_request, RequestApprovalCommand,
}
use port_sentinel.Domain.Events.{
  Stamp, ApprovalRequested, ApprovalResolved, approval_requested, approval_resolved,
}
use port_sentinel.Base.{
  true, ◌⊎◌, String, Option, if◌then◌else◌, ◌==◌, text_keys, ℕ, ◌≡◌, Bool, Option-cases, none,
  is_some, some, ◌++◌, refl, ap, ◌∙◌, inl, ◌∷◌, [], inr, contains, nat_keys,
}
use port_sentinel.Database.Engine.{Engine, edit_first}
use port_sentinel.Commands.World.{Bridge, World, with_database}

abbrev pub severity_of : String → String
severity_of status = if status == "approved" then "info" else "warning"

module _ (sql : Engine) {F B X : Type 0} (bridge : Option (Bridge B X)) (stamp : Stamp) where
  -- No handler is registered for the events of approvals.
  publish_resolved :
      (w : World sql F B) (e : ApprovalResolved)
      → publish_event sql started_bus bridge w (approval_resolved e) ≡ w
  unfolding publish_event publish call_all register_all subscribe add_handler handlers_of get put
      contains
  publish_resolved w e = refl

  publish_requested :
      (w : World sql F B) (e : ApprovalRequested)
      → publish_event sql started_bus bridge w (approval_requested e) ≡ w
  unfolding publish_event publish call_all register_all subscribe add_handler handlers_of get put
      contains
  publish_requested w e = refl

  trail-record_resolution :
      (w : World sql F B) (cmd : ResolveApprovalCommand)
      → trail sql (record_resolution sql started_bus bridge stamp w cmd)
        ≡ trail sql w ++ ("approval_resolved", none, severity_of cmd.status) ∷ []
  unfolding record_resolution
  trail-record_resolution w cmd = trail-audit sql _ _ ∙ rw (publish_resolved w _) refl

  pending-record_resolution :
      (w : World sql F B) (cmd : ResolveApprovalCommand) (id : ℕ)
      → pending sql (record_resolution sql started_bus bridge stamp w cmd).database id
        ≡ pending sql w.database id
  unfolding record_resolution audit insert_audit_log get_pending_approvals
  pending-record_resolution w cmd id = rw (publish_resolved w _) refl

  abbrev updated : World sql F B → ResolveApprovalCommand → Database sql F × Bool
  updated w cmd =
      update_approval_status sql w.database cmd.approval_id cmd.status cmd.resolved_by (w.clock 0)

  resolve_unknown :
      (w : World sql F B) (cmd : ResolveApprovalCommand)
      → approval sql w.database cmd.approval_id ≡ none
      → ((updated w cmd).0 ≡ w.database)
        × (handle_resolve sql started_bus bridge stamp w cmd ≡ (w, not_found))
  unfolding handle_resolve update_approval_status
  resolve_unknown w cmd e = rw (e, update_approval_status) (refl, refl)

  resolve_known :
      (w : World sql F B) (cmd : ResolveApprovalCommand) (r : AnalystApproval)
      → approval sql w.database cmd.approval_id ≡ some r
      → handle_resolve sql started_bus bridge stamp w cmd ≡ (
        record_resolution sql started_bus bridge stamp (with_database w (updated w cmd).0) cmd,
        resolved cmd.approval_id cmd.status,
      )
  unfolding handle_resolve update_approval_status record_resolution
  resolve_known w cmd r e = rw (e, update_approval_status) refl

  trail-updated :
      (w : World sql F B) (cmd : ResolveApprovalCommand)
      → trail sql (with_database w (updated w cmd).0) ≡ trail sql w
  unfolding update_approval_status
  trail-updated w cmd = elim (Option-cases (approval sql w.database cmd.approval_id)) [
    | inl e ↦ rw (e, update_approval_status) refl
    | inr (r, e) ↦ rw (e, update_approval_status) refl
  ]

  -- All that a resolution leaves alone.
  abbrev HasRest : World sql F B → World sql F B → Type 0
  HasRest w after =
      (after.database
        ≡ record w.database { approvals = after.database.approvals; audit = after.database.audit })
      × (after.bridge ≡ w.bridge)

  abbrev recorded : World sql F B → ResolveApprovalCommand → World sql F B
  recorded w cmd =
      record_resolution sql started_bus bridge stamp (with_database w (updated w cmd).0) cmd

  recorded-HasRest :
      (w : World sql F B) (cmd : ResolveApprovalCommand) (r : AnalystApproval)
      → approval sql w.database cmd.approval_id ≡ some r
      → HasRest w (recorded w cmd)
  unfolding record_resolution audit insert_audit_log update_approval_status
  recorded-HasRest w cmd r e =
      rw (publish_resolved (with_database w (updated w cmd).0) _)
        (rw (e, update_approval_status) (refl, refl))

  recorded-approvals :
      (w : World sql F B) (cmd : ResolveApprovalCommand) (r : AnalystApproval)
      → approval sql w.database cmd.approval_id ≡ some r
      → sql.rows AnalystApproval (recorded w cmd).database.approvals
        ≡ edit_first
            (with_key (λ a. a.id) cmd.approval_id)
            (resolved_row cmd.status cmd.resolved_by (w.clock 0))
            (sql.rows AnalystApproval w.database.approvals)
  unfolding record_resolution audit insert_audit_log update_approval_status
  recorded-approvals w cmd r e = rw (publish_resolved (with_database w (updated w cmd).0) _) (
      rw (e, update_approval_status)
        (sql.rows-edit AnalystApproval w.database.approvals (with_key (λ a. a.id) cmd.approval_id)
          (resolved_row cmd.status cmd.resolved_by (w.clock 0))))

  -- If no two approvals have one id: a resolution of an approval that does not exist changes nothing
  -- and answers "not found". Any other one, of an approval resolved before too, is answered with the id and the status, whatever
  -- text this is; it stores the status, the analyst and the time in the row of the approval and
  -- leaves the other rows as they are, so that each approval is then reported as pending as before,
  -- but for this one, which is reported with the new values if its status is "pending" and else
  -- not at all. It adds one entry to the audit trail, and changes no other table, nor the firewall.
  pub handle_resolve_correct :
      (w : World sql F B) (cmd : ResolveApprovalCommand) (id : ℕ)
      → HasIds sql w.database
      → let before = approval sql w.database cmd.approval_id in
        let (after, answer) = handle_resolve sql started_bus bridge stamp w cmd in
        ((before ≡ none) × (after ≡ w) × (answer ≡ not_found))
        ⊎ ((is_some before ≡ true)
            × (answer ≡ resolved cmd.approval_id cmd.status)
            × (sql.rows AnalystApproval after.database.approvals
                ≡ edit_first
                    (with_key (λ a. a.id) cmd.approval_id)
                    (resolved_row cmd.status cmd.resolved_by (w.clock 0))
                    (sql.rows AnalystApproval w.database.approvals))
            × (pending sql after.database id ≡ (
                if cmd.approval_id == id
                then (if cmd.status == "pending"
                    then Option.map
                        (resolved_row cmd.status cmd.resolved_by (w.clock 0))
                        (approval sql w.database id)
                    else none)
                else pending sql w.database id))
            × (trail sql after
                ≡ trail sql w ++ ("approval_resolved", none, severity_of cmd.status) ∷ [])
            × HasRest w after)
  handle_resolve_correct w cmd id h =
      let (done, keyed, reported) =
        update_approval_status_correct sql w.database cmd.approval_id cmd.status cmd.resolved_by
          (w.clock 0) id h in
      elim (Option-cases (approval sql w.database cmd.approval_id)) [
        | inl e ↦ rw ((resolve_unknown w cmd e).1) (inl (e, refl, refl))
        | inr (r, e) ↦
            let mid = with_database w (updated w cmd).0 in
            rw (resolve_known w cmd r e) (
              inr (
                ap is_some e,
                refl,
                recorded-approvals w cmd r e,
                pending-record_resolution mid cmd id ∙ reported,
                trail-record_resolution mid cmd ∙ rw (trail-updated w cmd) refl,
                recorded-HasRest w cmd r e,
              ))
      ]

  pending-audit :
      (w : World sql F B) (a : AuditRecord) (id : ℕ)
      → pending sql (audit sql w a).database id ≡ pending sql w.database id
  unfolding audit insert_audit_log get_pending_approvals
  pending-audit w a id = refl

  -- If no two approvals have one id: a request to suspend a process, for every process id, the protected ones included, is answered
  -- with an id that no approval had, under which it is then reported as pending, and audited; no
  -- other report changes.
  pub handle_request_correct :
      (w : World sql F B) (cmd : RequestApprovalCommand) (id : ℕ)
      → HasIds sql w.database
      → let (after, new) = handle_request sql started_bus bridge stamp w cmd in
        (approval sql w.database new ≡ none)
        × (pending sql after.database id ≡ (
            if new == id
            then some (new_approval new "suspend_process" (show cmd.pid) cmd.reason 0 (w.clock 0))
            else pending sql w.database id))
        × (trail sql after ≡ trail sql w ++ ("approval_requested", none, "info") ∷ [])
  unfolding handle_request create_analyst_approval
  handle_request_correct w cmd id h =
      let (free, keyed, reported) =
        create_analyst_approval_correct sql w.database "suspend_process" (show cmd.pid) cmd.reason 0
          (w.clock 0) id h in
      (
        free,
        pending-audit _ _ id
            ∙ ap (λ v. pending sql v.database id) (publish_requested _ _)
            ∙ reported,
        trail-audit sql _ _ ∙ rw (publish_requested _ _) refl,
      )
