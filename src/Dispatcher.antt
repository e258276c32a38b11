-- ===== src/Dispatcher.antt =====
-- backend/infrastructure/network/dispatcher.py: one pass of the loop, with the shared memory
-- attached. The loop around it, its sleeps and its task are not modelled. The snapshot that
-- `process_port_data` returns is the object in the history, so what is assigned to its fields is
-- seen there too.
pub mod Latest
use port_sentinel.Sniffer.Entry.{Platform}
use port_sentinel.Base.{or_else, ℕ, HasEq, List, some, ◌∷◌, [], Option, none, suc, nat_keys, String}
use port_sentinel.Base.Dict.{Dict, get, put}
use port_sentinel.Base.Floats.{Floats}
use port_sentinel.Bus.{EventBus, publish, Client}
use port_sentinel.Domain.Events.{Event, policy_evaluated, PolicyEvaluated, Stamp}
use port_sentinel.Domain.Metadata.{Metadata, ThreatService}
use port_sentinel.Domain.Policy.{PolicyEngine, evaluate}
use port_sentinel.Domain.Snapshot.{PortSnapshot}
use port_sentinel.Metrics.Accumulator.{
  TrafficAccumulator, PortData, process_port_data, Row, get_port_table,
}
use port_sentinel.Metrics.Window.{SlidingWindowCache}
use port_sentinel.Sniffer.Memory.{Buf}
use port_sentinel.Sniffer.Shm.{PortEntry, read_all_active_ports}

-- What the pass is given for one entry: the process table, the clock in `process_port_data` and in
-- `evaluate`, and the stamp of an event.
pub record Reading : Type 0 where
  pub proc_name : ℕ → Option String
  pub clock : ℕ → ℕ
  pub policy_clock : ℕ → ℕ
  pub stamp : Stamp

-- The parts of the container that a pass changes.
pub record Parts (F T W : Type 0) : Type 0 where
  pub accumulator : TrafficAccumulator F T
  pub engine : PolicyEngine F W
  pub world : W

-- The call of `process_port_data`, with its defaults.
abbrev pub port_data : PortEntry → ℕ → PortData
port_data e now = record {
  port = e.port;
  bytes_in = e.bytes_in;
  bytes_out = e.bytes_out;
  pid = e.pid;
  protocol = e.protocol;
  timestamp = some now;
  risk_score = 0;
  remote_ip = "0.0.0.0";
}

module _ {F : Type 0} where
  -- The two assignments to the snapshot.
  abbrev pub assign : PortEntry → PortSnapshot F → PortSnapshot F
  assign e s = record s { remote_ip = e.remote_ip; risk_score = e.risk_score }

  unfoldable pub assign_last : PortEntry → List (PortSnapshot F) → List (PortSnapshot F)
  assign_last e [] = []
  assign_last e (s ∷ []) = assign e s ∷ []
  assign_last e (s ∷ t ∷ rest) = s ∷ assign_last e (t ∷ rest)

  -- The snapshot is the newest one of its port.
  unfoldable pub assign_in_cache : PortEntry → SlidingWindowCache F → SlidingWindowCache F
  assign_in_cache e w = record w {
    cache = put w.cache e.port (assign_last e (or_else (get w.cache e.port) []));
  }

module _ {W Ty H : Type 0} ⦃te : HasEq Ty⦄ ⦃he : HasEq H⦄ (c : Client Ty H Event W)
    (bus : EventBus Ty H) where
  -- `if event: event_bus.publish(event)`
  abbrev pub publish_some : Option PolicyEvaluated → W → W
  publish_some none w = w
  publish_some (some e) w = (publish c bus (policy_evaluated e) w).0

module _ {F T W Ty H : Type 0} ⦃fl : Floats F⦄ ⦃ts : ThreatService F T⦄ ⦃te : HasEq Ty⦄
    ⦃he : HasEq H⦄ (c : Client Ty H Event W) (bus : EventBus Ty H) (now : ℕ) where
  unfoldable pub process_entry : Reading → PortEntry → Parts F T W → Parts F T W
  process_entry r e parts =
      let (snapshot, a) =
        process_port_data r.proc_name r.clock parts.accumulator (port_data e now) in
      let outcome = evaluate r.stamp r.policy_clock parts.engine (assign e snapshot) parts.world in
      record {
        accumulator = record a { cache = assign_in_cache e a.cache };
        engine = outcome.engine;
        world = publish_some c bus outcome.event outcome.world;
      }

  unfoldable pub process_entries : (ℕ → Reading) → List PortEntry → Parts F T W → Parts F T W
  process_entries readings [] parts = parts
  process_entries readings (e ∷ rest) parts =
      process_entries (λ n. readings (suc n)) rest (process_entry (readings 0) e parts)

  -- The table is emitted if there was an active port.
  abbrev pub emitted : List PortEntry → Parts F T W → Option (List (Row F))
  emitted [] parts = none
  emitted (e ∷ rest) parts = some (get_port_table parts.accumulator (some now) now)

  unfoldable pub run_pass :
      Platform → List ℕ → Buf → (ℕ → Reading) → Parts F T W → Parts F T W × Option (List (Row F))
  run_pass sys key buf readings parts =
      let entries = read_all_active_ports sys key buf in
      let after = process_entries readings entries parts in (after, emitted entries after)
