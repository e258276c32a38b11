-- ===== src/Commands/Blocking.antt =====
-- What blocking and unblocking a port records.
use port_sentinel.Database.Ports.{first-remove_blocked_port, first-add_blocked_port}
use port_sentinel.Database.Stores.{add_blocked_port, remove_blocked_port}
use port_sentinel.Base.Text.{concat}
use port_sentinel.Database.Keyed.{with_key}
use port_sentinel.Domain.Events.{FirewallUpdated, Stamp}
use port_sentinel.Base.Dict.{get, put}
use port_sentinel.Base.Result.{Result, ok, raise}
use port_sentinel.Bus.{EventBus, new_bus, publish, call_all, subscribe, add_handler, handlers_of}
use port_sentinel.Commands.Handlers.{Handler, handler_keys, register_all, handle_firewall, audit}
use port_sentinel.Commands.Firewall.{
  FirewallAnswer, answered, BlockPortCommand, handle_block, handle_unblock, record_block,
  record_unblock, publish_update, finish_unblock, finish_block,
}
use port_sentinel.Commands.World.{Bridge, World, with_database}
use port_sentinel.Database.Audit.{insert_audit_log, make_audit}
use port_sentinel.Database.Engine.{Engine, first}
use port_sentinel.Database.Tables.{BlockedPort, AuditLog}
use port_sentinel.Base.{
  ℕ, String, Bool, Option, none, some, text_keys, nat_keys, if◌then◌else◌, true, false, ◌≡◌,
  contains, refl, List, map, ◌==◌, ◌++◌, ◌∷◌, [], ap, ◌∙◌, ◌&&◌, sym, append-nil,
}

-- The bus as the program starts with it.
abbrev pub started_bus : EventBus String Handler
started_bus = register_all new_bus

module _ (sql : Engine) {F B X : Type 0} where
  -- A firewall event reaches its one handler.
  publish_update_lem :
      (bridge : Option (Bridge B X)) (w : World sql F B) (e : FirewallUpdated)
      → publish_update sql {X = X} started_bus bridge w e ≡ handle_firewall sql w e
  unfolding publish_update publish call_all register_all subscribe add_handler handlers_of get put
      contains
  publish_update_lem bridge w e = refl

abbrev pub succeeded : {X : Type 0} → Result X Bool → Bool
succeeded (raise x) = false
succeeded (ok success) = success

abbrev pub answer_of : {X : Type 0} → ℕ → String → Result X Bool → Result X FirewallAnswer
answer_of port action (raise x) = raise x
answer_of port action (ok success) = ok (answered success port action)

-- What identifies an audit entry here: its type, port and severity.
abbrev pub audit_entry : AuditLog → String × Option ℕ × String
audit_entry a = (a.event_type, a.port, a.severity)

module _ (sql : Engine) {F B : Type 0} where
  abbrev pub blocked_row : World sql F B → ℕ → Option BlockedPort
  blocked_row w p = first (with_key (λ r. r.port) p) (sql.rows BlockedPort w.database.blocked)

  abbrev pub trail : World sql F B → List (String × Option ℕ × String)
  trail w = map audit_entry (sql.rows AuditLog w.database.audit)

pub map-append {ℓ} :
    {A B : Type ℓ} (f : A → B) (xs : List A) (x : A) → map f (xs ++ x ∷ []) ≡ map f xs ++ f x ∷ []
map-append f [] x = refl
map-append f (y ∷ xs) x = ap (◌∷◌ (f y)) (map-append f xs x)

module _ (sql : Engine) {F B : Type 0} where
  trail-handle_firewall :
      (w : World sql F B) (e : FirewallUpdated)
      → trail sql (handle_firewall sql w e)
        ≡ trail sql w
          ++ (
            concat ("firewall_" ∷ e.action ∷ []),
            some e.port,
            if e.action == "block" then "critical" else "warning",
          )
            ∷ []
  unfolding handle_firewall audit insert_audit_log make_audit
  trail-handle_firewall w e =
      ap (map audit_entry) (sql.rows-add AuditLog w.database.audit _)
      ∙ map-append audit_entry (sql.rows AuditLog w.database.audit) _

  blocked_row-handle_firewall :
      (w : World sql F B) (e : FirewallUpdated) (p : ℕ)
      → blocked_row sql (handle_firewall sql w e) p ≡ blocked_row sql w p
  unfolding handle_firewall audit insert_audit_log
  blocked_row-handle_firewall w e p = refl

module _ (sql : Engine) {F B X : Type 0} (bridge : Bridge B X) (stamp : Stamp) where
  -- The row that a block leaves.
  abbrev pub new_row : World sql F B → BlockPortCommand → BlockedPort
  new_row w cmd = record {
    port = cmd.port;
    block_type = "hard";
    blocked_at = w.clock 0;
    reason = concat ("User blocked " ∷ cmd.protocol ∷ []);
  }

  record_block_lem :
      (w : World sql F B) (cmd : BlockPortCommand) (p : ℕ)
      → (blocked_row sql (record_block sql started_bus bridge stamp w cmd) p
          ≡ (if cmd.port == p then some (new_row w cmd) else blocked_row sql w p))
        × (trail sql (record_block sql started_bus bridge stamp w cmd)
            ≡ trail sql w ++ ("firewall_block", some cmd.port, "critical") ∷ [])
  unfolding record_block concat
  record_block_lem w cmd p =
      let e : FirewallUpdated = record {
        stamp = stamp;
        port = cmd.port;
        action = "block";
        protocol = cmd.protocol;
        reason = cmd.reason;
        success = true;
      } in
      let reason = concat ("User blocked " ∷ cmd.protocol ∷ []) in
      let mid =
        with_database w (add_blocked_port sql w.database cmd.port "hard" reason (w.clock 0)) in
      let told = publish_update_lem sql {X = X} (some bridge) mid e in
      (
        ap (λ v. blocked_row sql v p) told
            ∙ blocked_row-handle_firewall sql mid e p
            ∙ first-add_blocked_port sql w.database cmd.port "hard" reason (w.clock 0) p,
        ap (trail sql) told ∙ trail-handle_firewall sql mid e ∙ unfold add_blocked_port in refl,
      )

  -- With the handlers registered, `handle_block` answers or raises as the bridge does; a port is
  -- recorded as blocked, and one critical entry audited, exactly if the bridge reports success.
  pub handle_block_correct :
      (w : World sql F B) (cmd : BlockPortCommand) (p : ℕ)
      → let result = (bridge.block_port cmd.port cmd.protocol w.bridge).0 in
        let (answer, after) = handle_block sql started_bus (some bridge) stamp w cmd in
        (answer ≡ answer_of cmd.port "block" result)
        × (blocked_row sql after p ≡ (
            if succeeded result && cmd.port == p
            then some (new_row w cmd)
            else blocked_row sql w p))
        × (trail sql after
            ≡ trail sql w
              ++ (if succeeded result
                  then ("firewall_block", some cmd.port, "critical") ∷ []
                  else []))
  unfolding handle_block
  handle_block_correct w cmd p = of_result (bridge.block_port cmd.port cmd.protocol w.bridge).0
    where
      next : World sql F B
      next = record w { bridge = (bridge.block_port cmd.port cmd.protocol w.bridge).1 }

      of_result :
          (result : Result X Bool)
          → let (answer, after) = finish_block sql started_bus bridge stamp cmd result next in
            (answer ≡ answer_of cmd.port "block" result)
            × (blocked_row sql after p ≡ (
                if succeeded result && cmd.port == p
                then some (new_row w cmd)
                else blocked_row sql w p))
            × (trail sql after
                ≡ trail sql w
                  ++ (if succeeded result
                      then ("firewall_block", some cmd.port, "critical") ∷ []
                      else []))
      of_result (raise x) = (refl, refl, sym (append-nil (trail sql w)))
      of_result (ok false) = (refl, refl, sym (append-nil (trail sql w)))
      of_result (ok true) = let (row, entry) = record_block_lem next cmd p in (refl, row, entry)

  record_unblock_lem :
      (w : World sql F B) (port p : ℕ)
      → (blocked_row sql (record_unblock sql started_bus bridge stamp w port) p
          ≡ (if port == p then none else blocked_row sql w p))
        × (trail sql (record_unblock sql started_bus bridge stamp w port)
            ≡ trail sql w ++ ("firewall_unblock", some port, "warning") ∷ [])
  unfolding record_unblock concat
  record_unblock_lem w port p =
      let e : FirewallUpdated = record {
        stamp = stamp;
        port = port;
        action = "unblock";
        protocol = "TCP";
        reason = "Manual unblock";
        success = true;
      } in
      let mid = record w { database = remove_blocked_port sql w.database port } in
      let told = publish_update_lem sql {X = X} (some bridge) mid e in
      (
        ap (λ v. blocked_row sql v p) told
            ∙ blocked_row-handle_firewall sql mid e p
            ∙ first-remove_blocked_port sql w.database port p,
        ap (trail sql) told ∙ trail-handle_firewall sql mid e ∙ unfold remove_blocked_port in refl,
      )

  -- With the handlers registered, `handle_unblock` answers or raises as the bridge does; the record
  -- of a blocked port is removed, and one entry audited, exactly if the bridge reports success.
  pub handle_unblock_correct :
      (w : World sql F B) (port p : ℕ)
      → let result = (bridge.unblock_port port w.bridge).0 in
        let (answer, after) = handle_unblock sql started_bus (some bridge) stamp w port in
        (answer ≡ answer_of port "unblock" result)
        × (blocked_row sql after p
            ≡ (if succeeded result && port == p then none else blocked_row sql w p))
        × (trail sql after
            ≡ trail sql w
              ++ (if succeeded result then ("firewall_unblock", some port, "warning") ∷ [] else []))
  unfolding handle_unblock
  handle_unblock_correct w port p = of_result (bridge.unblock_port port w.bridge).0
    where
      next : World sql F B
      next = record w { bridge = (bridge.unblock_port port w.bridge).1 }

      of_result :
          (result : Result X Bool)
          → let (answer, after) = finish_unblock sql started_bus bridge stamp port result next in
            (answer ≡ answer_of port "unblock" result)
            × (blocked_row sql after p
                ≡ (if succeeded result && port == p then none else blocked_row sql w p))
            × (trail sql after
                ≡ trail sql w
                  ++ (if succeeded result
                      then ("firewall_unblock", some port, "warning") ∷ []
                      else []))
      of_result (raise x) = (refl, refl, sym (append-nil (trail sql w)))
      of_result (ok false) = (refl, refl, sym (append-nil (trail sql w)))
      of_result (ok true) = let (row, entry) = record_unblock_lem next port p in (refl, row, entry)
