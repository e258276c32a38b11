-- ===== src/Container.antt =====
-- backend/container.py: the background jobs on the accumulator and the database, and the shutdown.
-- `clock n` is the n-th time that one call reads; a call of a job does not fail.
pub mod Flush
pub mod Pass
pub mod Shutdown
use port_sentinel.Base.{
  HasEq, String, ℕ, zero, suc, List, [], ◌∷◌, Bool, true, false, Option, some, none, map,
  if◌then◌else◌, ◌==◌, text_keys,
}
use port_sentinel.Base.Floats.{Floats}
use port_sentinel.Base.Result.{Result}
use port_sentinel.Base.Time.{seconds}
use port_sentinel.Bridges.{BridgeError}
use port_sentinel.Bus.{EventBus, clear}
use port_sentinel.Database.Engine.{Engine}
use port_sentinel.Database.History.{TrafficRecord, insert_traffic, prune_old_traffic}
use port_sentinel.Database.Tables.{Database}
use port_sentinel.Jobs.{BackgroundJob, register, is_due}
use port_sentinel.Metrics.Accumulator.{TrafficAccumulator, Row, get_port_table, cleanup}
use port_sentinel.Plugins.{PluginRegistry, stop_all}

pub record Services (sql : Engine) (F T : Type 0) : Type 0 where
  pub traffic_accumulator : TrafficAccumulator F T
  pub database : Database sql F

-- A row of the port table as `insert_traffic` reads it.
unfoldable pub to_record : {F : Type 0} → Row F → TrafficRecord F
to_record r = record {
  timestamp = some r.timestamp;
  port = some r.port;
  pid = some r.pid;
  app_name = some r.app_name;
  kb_s_in = some r.kb_s_in;
  kb_s_out = some r.kb_s_out;
  protocol = some r.protocol;
  direction = some r.direction;
  risk_score = some r.risk_score;
}

-- The scheduler starts with no job.
unfoldable pub register_background_jobs : ℕ → ℕ → List BackgroundJob → List BackgroundJob
register_background_jobs db_flush_interval cache_evict_interval jobs =
    register
      (register (register jobs "traffic_flush" db_flush_interval false) "cache_evict"
        cache_evict_interval false)
      "traffic_prune" (seconds 3600) false

module _ (sql : Engine) {F : Type 0} ⦃fl : Floats F⦄ where
  abbrev pub insert_rows : Database sql F → List (Row F) → (ℕ → ℕ) → Database sql F
  insert_rows db [] clock = db
  insert_rows db (r ∷ rest) clock = insert_traffic sql db (map to_record (r ∷ rest)) clock

module _ (sql : Engine) {F T : Type 0} ⦃fl : Floats F⦄ where
  unfoldable pub flush_traffic : Services sql F T → (ℕ → ℕ) → Services sql F T
  flush_traffic s clock = record s {
    database =
        insert_rows sql s.database (get_port_table s.traffic_accumulator none (clock 0))
          (λ n. clock (suc n));
  }

  -- The function of the job at a position of the list.
  unfoldable pub run_function : ℕ → Services sql F T → (ℕ → ℕ) → Services sql F T
  run_function zero s clock = flush_traffic s clock
  run_function (suc zero) s clock = record s {
    traffic_accumulator = cleanup s.traffic_accumulator (clock 0);
  }
  run_function (suc (suc n)) s clock = record s {
    database = (prune_old_traffic sql s.database 24 (clock 0)).0;
  }

  -- What one pass over the jobs, from position `i` on, does to the services.
  unfoldable pub background_pass :
      ℕ → (ℕ → ℕ → ℕ) → ℕ → List BackgroundJob → Services sql F T → Services sql F T
  background_pass now clock i [] s = s
  background_pass now clock i (job ∷ jobs) s =
      background_pass now clock (suc i) jobs
        (if is_due now job then run_function i s (clock i) else s)

-- What a shutdown changes: the stop events of the scheduler and of the sniffer, if there is one,
-- the plugins, the bridge, if there is one, the connection, and the bus.
pub record Container (Topic H B : Type 0) : Type 0 where
  pub scheduler_stopped : Bool
  pub plugin_registry : PluginRegistry
  pub sniffer_stopped : Option Bool
  pub os_bridge : Option B
  pub database_open : Bool
  pub event_bus : EventBus Topic H

-- An exception of `cleanup_all_rules` is only logged.
abbrev pub cleaned_up : {B : Type 0} → (B → Result BridgeError ℕ × B) → Option B → Option B
cleaned_up cleanup_all_rules none = none
cleaned_up cleanup_all_rules (some bridge) = some (cleanup_all_rules bridge).1

abbrev pub stopped : Option Bool → Option Bool
stopped none = none
stopped (some event) = some true

-- `returns name` tells whether the `stop` of a plugin returns.
unfoldable pub shutdown :
    {Topic H B : Type 0} ⦃te : HasEq Topic⦄ ⦃he : HasEq H⦄
    → (String → Bool)
    → (B → Result BridgeError ℕ × B)
    → Container Topic H B
    → Container Topic H B
shutdown returns cleanup_all_rules c = record {
  scheduler_stopped = true;
  plugin_registry = stop_all returns c.plugin_registry;
  sniffer_stopped = stopped c.sniffer_stopped;
  os_bridge = cleaned_up cleanup_all_rules c.os_bridge;
  database_open = false;
  event_bus = clear c.event_bus;
}
