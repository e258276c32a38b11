-- ===== src/Commands/Deciding.antt =====
-- What a policy trigger and a resolution of an approval record.
use port_sentinel.Database.Stores.{add_blocked_port}
use mathlib.Core.Path.{subst}
use port_sentinel.Base.Dict.{get, put}
use port_sentinel.Base.Text.{show}
use port_sentinel.Database.Ports.{first-add_blocked_port}
use port_sentinel.Database.Approvals.{create_analyst_approval}
use port_sentinel.Base.Result.{Result, ok, raise}
use port_sentinel.Bus.{publish, call_all, subscribe, add_handler, handlers_of}
use port_sentinel.Commands.Blocking.{started_bus, blocked_row, trail, map-append, audit_entry}
use port_sentinel.Commands.Handlers.{
  handler_keys, client, register_all, handle_policy, after_block, record_policy_block,
  request_for_policy, notify_policy, audit,
}
use port_sentinel.Commands.World.{Bridge, World, with_database}
use port_sentinel.Database.Audit.{insert_audit_log, make_audit, AuditRecord}
use port_sentinel.Database.Engine.{Engine}
use port_sentinel.Database.Reviews.{new_approval}
use port_sentinel.Database.Tables.{AuditLog, AnalystApproval}
use port_sentinel.Domain.Events.{PolicyEvaluated, policy_evaluated}
use port_sentinel.Base.{
  ℕ, String, Bool, Option, none, some, text_keys, nat_keys, if◌then◌else◌, true, false, ◌≡◌, sym,
  List, ◌&&◌, ◌==◌, ◌∷◌, ◌++◌, append-nil, [], ap, refl, map, ◌∙◌, Bool-cases, inl, inr, contains,
}

abbrev pub returned : {X : Type 0} → Result X Bool → Bool
returned (raise x) = false
returned (ok done) = true

-- What a trigger comes to.
pub data Reaction : Type 0 where
  blocks fails_to_block requests notifies : Reaction

abbrev pub reaction_to_block : Bool → Reaction
reaction_to_block true = blocks
reaction_to_block false = fails_to_block

abbrev pub severities : Reaction → List (String × Option ℕ × String)
severities blocks = ("policy_trigger", none, "critical") ∷ []
severities fails_to_block = []
severities requests = ("policy_trigger", none, "warning") ∷ []
severities notifies = ("policy_trigger", none, "info") ∷ []

abbrev pub plain_reaction : PolicyEvaluated → Reaction
plain_reaction e = if e.action == "request_approval" then requests else notifies

abbrev pub is_block : Reaction → Bool
is_block blocks = true
is_block _ = false

abbrev pub is_request : Reaction → Bool
is_request requests = true
is_request _ = false

module _ (sql : Engine) {F B : Type 0} where
  abbrev pub approval_rows : World sql F B → List AnalystApproval
  approval_rows w = sql.rows AnalystApproval w.database.approvals

  pub trail-audit :
      (w : World sql F B) (a : AuditRecord)
      → trail sql (audit sql w a) ≡ trail sql w ++ (a.event_type, a.port, a.severity) ∷ []
  unfolding audit insert_audit_log make_audit
  trail-audit w a =
      ap (map audit_entry) (sql.rows-add AuditLog w.database.audit _)
      ∙ map-append audit_entry (sql.rows AuditLog w.database.audit) _

  -- The state after a reaction: the ports recorded as blocked, the approvals and the audit trail.
  pub record After (w after : World sql F B) (e : PolicyEvaluated) (r : Reaction) : Type 0 where
    pub blocked :
        (p : ℕ)
        → blocked_row sql after p ≡ (
            if is_block r && e.target_port == p
            then some (record {
              port = e.target_port;
              block_type = "hard";
              blocked_at = w.clock 0;
              reason = "Policy Engine Auto-Block";
            })
            else blocked_row sql w p)
    pub approvals :
        approval_rows after
        ≡ approval_rows w
          ++ (if is_request r
              then new_approval
                  (sql.next_id AnalystApproval (λ a. a.id) w.database.approvals)
                  "suspend_process"
                  (show e.target_pid)
                  "Policy trigger"
                  0
                  (w.clock 0)
                ∷ []
              else [])
    pub audited : trail sql after ≡ trail sql w ++ severities r

module _ (sql : Engine) {F B : Type 0} where
  record_policy_block-After :
      (w : World sql F B) (e : PolicyEvaluated) → After sql w (record_policy_block sql w e) e blocks
  unfolding record_policy_block audit insert_audit_log add_blocked_port
  record_policy_block-After w e = record {
    blocked = λ p.
        first-add_blocked_port sql w.database e.target_port "hard" "Policy Engine Auto-Block"
          (w.clock 0) p;
    approvals = sym (append-nil (approval_rows sql w));
    audited =
        trail-audit sql
          (with_database w (
            add_blocked_port sql w.database e.target_port "hard" "Policy Engine Auto-Block"
              (w.clock 0)))
          _
        ∙ refl;
  }

  request_for_policy-After :
      (w : World sql F B) (e : PolicyEvaluated)
      → After sql w (request_for_policy sql w e) e requests
  unfolding request_for_policy audit insert_audit_log create_analyst_approval
  request_for_policy-After w e = record {
    blocked = λ p. refl;
    approvals = sql.rows-add AnalystApproval w.database.approvals _;
    audited =
        trail-audit sql
          (with_database w
            (create_analyst_approval sql w.database "suspend_process" (show e.target_pid)
              "Policy trigger" 0 (w.clock 0)).0)
          _
        ∙ refl;
  }

  notify_policy-After :
      (w : World sql F B) (e : PolicyEvaluated) → After sql w (notify_policy sql w e) e notifies
  unfolding notify_policy audit insert_audit_log
  notify_policy-After w e = record {
    blocked = λ p. refl;
    approvals = sym (append-nil (approval_rows sql w));
    audited = trail-audit sql w _;
  }

  failed-After :
      (w : World sql F B) (b : B) (e : PolicyEvaluated)
      → After sql w (record w { bridge = b }) e fails_to_block
  failed-After w b e = record {
    blocked = λ p. refl;
    approvals = sym (append-nil (approval_rows sql w));
    audited = sym (append-nil (trail sql w));
  }

  plain-After :
      (w : World sql F B) (e : PolicyEvaluated)
      → After sql w
          (if e.action == "request_approval"
            then request_for_policy sql w e
            else notify_policy sql w e)
          e
          (plain_reaction e)
  plain-After w e = elim (Bool-cases (e.action == "request_approval")) [
    | inl y ↦ rw (y, plain_reaction) (request_for_policy-After w e)
    | inr n ↦ rw (n, plain_reaction) (notify_policy-After w e)
  ]

module _ (sql : Engine) {F B X : Type 0} where
  -- What a trigger comes to, by its action and by whether the bridge raises.
  abbrev pub reaction : Option (Bridge B X) → World sql F B → PolicyEvaluated → Reaction
  reaction none w e = plain_reaction e
  reaction (some bridge) w e =
      if e.action == "block"
      then reaction_to_block
          (returned (bridge.block_port e.target_port bridge.default_protocol w.bridge).0)
      else plain_reaction e

  publish_policy :
      (bridge : Option (Bridge B X)) (w : World sql F B) (e : PolicyEvaluated)
      → (publish (client sql bridge) started_bus (policy_evaluated e) w).0
        ≡ handle_policy sql bridge w e
  unfolding publish call_all register_all subscribe add_handler handlers_of get put contains
  publish_policy bridge w e = refl

  after_block-After :
      (result : Result X Bool) (w : World sql F B) (b : B) (e : PolicyEvaluated)
      → After sql w
          (after_block sql result (record w { bridge = b }) e)
          e
          (reaction_to_block (returned result))
  after_block-After (raise x) w b e = failed-After sql w b e
  after_block-After (ok done) w b e =
      let h = record_policy_block-After sql (record w { bridge = b }) e in
      record { blocked = h.blocked; approvals = h.approvals; audited = h.audited }

  handle_policy-After :
      (bridge : Option (Bridge B X)) (w : World sql F B) (e : PolicyEvaluated)
      → After sql w (handle_policy sql bridge w e) e (reaction bridge w e)
  unfolding handle_policy
  handle_policy-After none w e = plain-After sql w e
  handle_policy-After (some bridge) w e = elim (Bool-cases (e.action == "block")) [
    | inl y ↦
        let (result, b) = bridge.block_port e.target_port bridge.default_protocol w.bridge in
        rw y (after_block-After result w b e)
    | inr n ↦ rw n (plain-After sql w e)
  ]

  -- A published policy trigger has exactly one reaction. A block whose call returns, with whatever
  -- result, records the port as blocked and audits it as critical; one whose call raises records
  -- nothing. A request, without regard to a bridge, adds one pending approval, for every process id,
  -- the protected ones included; any other trigger, and a block without a bridge, is only audited.
  pub handle_policy_correct :
      (bridge : Option (Bridge B X)) (w : World sql F B) (e : PolicyEvaluated)
      → After sql w
          (publish (client sql bridge) started_bus (policy_evaluated e) w).0
          e
          (reaction bridge w e)
  handle_policy_correct bridge w e =
      subst (λ v. After sql w v e (reaction bridge w e)) (sym (publish_policy bridge w e))
        (handle_policy-After bridge w e)
