-- ===== src/Commands/Firewall.antt =====
-- backend/application/commands/firewall.py. Each event that is published has a stamp.
use port_sentinel.Base.Result.{Result, ok, raise}
use port_sentinel.Base.Text.{concat}
use port_sentinel.Bus.{EventBus, publish}
use port_sentinel.Commands.Handlers.{Handler, handler_keys, client}
use port_sentinel.Commands.World.{Bridge, World, now, with_database}
use port_sentinel.Database.Engine.{Engine}
use port_sentinel.Database.Stores.{add_blocked_port, remove_blocked_port}
use port_sentinel.Domain.Events.{Stamp, firewall_updated, FirewallUpdated}
use port_sentinel.Base.{
  ℕ, String, Bool, Option, none, some, text_keys, if◌then◌else◌, true, ◌∷◌, [],
}

pub record BlockPortCommand : Type 0 where
  pub port : ℕ
  pub protocol : String
  pub reason : String

-- The dictionary that a handler returns.
pub data FirewallAnswer : Type 0 where
  unsupported : FirewallAnswer
  answered : (success : Bool) (port : ℕ) (action : String) → FirewallAnswer

module _ (sql : Engine) {F B X : Type 0} (bus : EventBus String Handler) where
  unfoldable pub publish_update :
      Option (Bridge B X) → World sql F B → FirewallUpdated → World sql F B
  publish_update bridge w e = (publish (client sql bridge) bus (firewall_updated e) w).0

  unfoldable pub record_block :
      Bridge B X → Stamp → World sql F B → BlockPortCommand → World sql F B
  record_block bridge stamp w cmd =
      publish_update (some bridge)
        (with_database w (
          add_blocked_port sql w.database cmd.port "hard"
            (concat ("User blocked " ∷ cmd.protocol ∷ [])) (now w)))
        (record {
          stamp = stamp;
          port = cmd.port;
          action = "block";
          protocol = cmd.protocol;
          reason = cmd.reason;
          success = true;
        })

  abbrev pub finish_block :
      Bridge B X
      → Stamp
      → BlockPortCommand
      → Result X Bool
      → World sql F B
      → Result X FirewallAnswer × World sql F B
  finish_block bridge stamp cmd (raise x) w = (raise x, w)
  finish_block bridge stamp cmd (ok success) w = (
    ok (answered success cmd.port "block"),
    if success then record_block bridge stamp w cmd else w,
  )

  -- The handler raises again what the bridge raised.
  unfoldable pub handle_block :
      Option (Bridge B X)
      → Stamp
      → World sql F B
      → BlockPortCommand
      → Result X FirewallAnswer × World sql F B
  handle_block none stamp w cmd = (ok unsupported, w)
  handle_block (some bridge) stamp w cmd =
      let (result, b) = bridge.block_port cmd.port cmd.protocol w.bridge in
      finish_block bridge stamp cmd result (record w { bridge = b })

  -- `FirewallUpdated` has the default protocol "TCP".
  unfoldable pub record_unblock : Bridge B X → Stamp → World sql F B → ℕ → World sql F B
  record_unblock bridge stamp w port =
      publish_update (some bridge) (record w { database = remove_blocked_port sql w.database port })
        (record {
          stamp = stamp;
          port = port;
          action = "unblock";
          protocol = "TCP";
          reason = "Manual unblock";
          success = true;
        })

  abbrev pub finish_unblock :
      Bridge B X
      → Stamp
      → ℕ
      → Result X Bool
      → World sql F B
      → Result X FirewallAnswer × World sql F B
  finish_unblock bridge stamp port (raise x) w = (raise x, w)
  finish_unblock bridge stamp port (ok success) w = (
    ok (answered success port "unblock"),
    if success then record_unblock bridge stamp w port else w,
  )

  unfoldable pub handle_unblock :
      Option (Bridge B X) → Stamp → World sql F B → ℕ → Result X FirewallAnswer × World sql F B
  handle_unblock none stamp w port = (ok unsupported, w)
  handle_unblock (some bridge) stamp w port =
      let (result, b) = bridge.unblock_port port w.bridge in
      finish_unblock bridge stamp port result (record w { bridge = b })
