-- ===== src/Tests/Commanding.antt =====
-- The command and event handlers at concrete inputs.
use mathlib.Core.Option
use port_sentinel.Database.Tables.{AnalystApproval}
use port_sentinel.Database.Keyed.{with_key}
use port_sentinel.Database.Engine.{edit_first}
use port_sentinel.Base.Text.{show}
use port_sentinel.Commands.Resolving.{severity_of, handle_resolve_correct, handle_request_correct}
use port_sentinel.Commands.Blocking.{
  answer_of, blocked_row, succeeded, new_row, trail, handle_block_correct, started_bus,
  handle_unblock_correct,
}
use port_sentinel.Commands.Handlers.{handler_keys, client}
use port_sentinel.Bus.{publish, remove_one}
use port_sentinel.Database.Reviews.{approval, pending, new_approval, resolved_row}
use port_sentinel.Commands.World.{World, Bridge}
use port_sentinel.Base.{
  is_some, [], List, ℕ, String, ◌+◌, some, if◌then◌else◌, ◌==◌, ◌≡◌, ◌&&◌, ◌++◌, ◌∷◌, true, none,
  length, ◌⊎◌,
}
use port_sentinel.Commands.Requests.{
  ResolveApprovalCommand, handle_resolve, resolved, not_found, RequestApprovalCommand,
  handle_request,
}
use port_sentinel.Commands.Deciding.{After, reaction, handle_policy_correct}
use port_sentinel.Domain.Events.{PolicyEvaluated, Stamp, policy_evaluated}
use port_sentinel.Commands.Firewall.{BlockPortCommand, handle_unblock, handle_block}
use port_sentinel.Base.{nat_keys, text_keys}
use port_sentinel.Base.Result.{raise, ok}
use port_sentinel.Tests.Lists.{list_engine}
use port_sentinel.Tests.Storing.{store, asked}

-- A bridge whose state is the list of its rules, and which refuses port 22.
abbrev rules : Bridge (List ℕ) String
rules = record {
  default_protocol = "tcp";
  block_port = λ p protocol b. if p == 22 then (raise "refused", b) else (ok true, p ∷ b);
  unblock_port = λ p b. (ok true, remove_one p b);
  cleanup_all_rules = λ b. (ok (length b), []);
}

abbrev world : World list_engine ℕ (List ℕ)
world = record { database = store; bridge = []; clock = λ n. n + 100 }

abbrev stamp : Stamp
stamp = record { event_id = "e"; timestamp = 7 }

abbrev command : BlockPortCommand
command = record { port = 443; protocol = "TCP"; reason = "scan" }

handle_block_correct_example :
    let result = (rules.block_port 443 "TCP" []).0 in
    let (answer, after) = handle_block list_engine started_bus (some rules) stamp world command in
    (answer ≡ answer_of 443 "block" result)
    × (blocked_row list_engine after 443 ≡ (
        if succeeded result && command.port == 443
        then some (new_row list_engine rules stamp world command)
        else blocked_row list_engine world 443))
    × (trail list_engine after
        ≡ trail list_engine world
          ++ (if succeeded result then ("firewall_block", some 443, "critical") ∷ [] else []))
handle_block_correct_example = handle_block_correct list_engine rules stamp world command 443

handle_unblock_correct_example :
    let result = (rules.unblock_port 443 []).0 in
    let (answer, after) = handle_unblock list_engine started_bus (some rules) stamp world 443 in
    (answer ≡ answer_of 443 "unblock" result)
    × (blocked_row list_engine after 443 ≡ (
        if succeeded result && nat_keys.same 443 443
        then none
        else blocked_row list_engine world 443))
    × (trail list_engine after
        ≡ trail list_engine world
          ++ (if succeeded result then ("firewall_unblock", some 443, "warning") ∷ [] else []))
handle_unblock_correct_example = handle_unblock_correct list_engine rules stamp world 443 443

abbrev trigger : PolicyEvaluated
trigger = record {
  stamp = stamp;
  policy_id = "p";
  policy_name = "exfiltration";
  action = "block";
  target_port = 443;
  target_pid = 7;
  app_name = "web";
  risk_score = 80;
}

handle_policy_correct_example :
    After list_engine world
      (publish (client list_engine (some rules)) started_bus (policy_evaluated trigger) world).0
      trigger
      (reaction list_engine (some rules) world trigger)
handle_policy_correct_example = handle_policy_correct list_engine (some rules) world trigger

abbrev resolving : ResolveApprovalCommand
resolving = record { approval_id = 3; status = "approved"; resolved_by = "ana" }

abbrev asked_world : World list_engine ℕ (List ℕ)
asked_world = record world { database = asked }

handle_resolve_correct_example :
    let before = approval list_engine asked_world.database resolving.approval_id in
    let (after, answer) =
      handle_resolve list_engine started_bus (some rules) stamp asked_world resolving in
    ((before ≡ none) × (after ≡ asked_world) × (answer ≡ not_found))
    ⊎ ((is_some before ≡ true)
        × (answer ≡ resolved resolving.approval_id resolving.status)
        × (list_engine.rows AnalystApproval after.database.approvals
            ≡ edit_first
                (with_key (λ a. a.id) resolving.approval_id)
                (resolved_row resolving.status resolving.resolved_by (asked_world.clock 0))
                (list_engine.rows AnalystApproval asked_world.database.approvals))
        × (pending list_engine after.database 3 ≡ (
            if resolving.approval_id == 3
            then (if resolving.status == "pending"
                then Option.map
                    (resolved_row resolving.status resolving.resolved_by (asked_world.clock 0))
                    (approval list_engine asked_world.database 3)
                else none)
            else pending list_engine asked_world.database 3))
        × (trail list_engine after
            ≡ trail list_engine asked_world
              ++ ("approval_resolved", none, severity_of resolving.status) ∷ [])
        × ((after.database ≡ record asked_world.database {
          approvals = after.database.approvals;
          audit = after.database.audit;
        })
            × (after.bridge ≡ asked_world.bridge)))
handle_resolve_correct_example =
    handle_resolve_correct list_engine (some rules) stamp asked_world resolving 3 (tt, tt)

abbrev requesting : RequestApprovalCommand
requesting = record { pid = 7; app_name = some "web"; reason = "beacon" }

handle_request_correct_example :
    let (after, new) =
      handle_request list_engine started_bus (some rules) stamp asked_world requesting in
    (approval list_engine asked new ≡ none)
    × (pending list_engine after.database 4 ≡ (
        if nat_keys.same new 4
        then some (new_approval new "suspend_process" (show 7) "beacon" 0 100)
        else pending list_engine asked 4))
    × (trail list_engine after
        ≡ trail list_engine asked_world ++ ("approval_requested", none, "info") ∷ [])
handle_request_correct_example =
    handle_request_correct list_engine (some rules) stamp asked_world requesting 4 (tt, tt)
