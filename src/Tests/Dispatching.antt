-- ===== src/Tests/Dispatching.antt =====
-- A pass of the dispatcher at concrete inputs.
use port_sentinel.Metrics.Window.Valid.{IsValid}
use port_sentinel.Dispatcher.Latest.{port_row, run_pass_correct, as_read}
use port_sentinel.Metrics.Window.{new_window}
use port_sentinel.Base.Time.{seconds}
use port_sentinel.Domain.Events.{Event}
use port_sentinel.Metrics.Accumulator.{no_metadata, get_port_table}
use port_sentinel.Metrics.Delta.{new_metrics}
use port_sentinel.Dispatcher.{Parts, run_pass, Reading}
use port_sentinel.Domain.Metadata.{ThreatService}
use port_sentinel.Domain.Events.{event_type}
use port_sentinel.Base.{
  nat_keys, text_keys, ℕ, String, none, [], ◌+◌, ◌≡◌, true, text_keys, if◌then◌else◌, length, some,
  arith,
}
use port_sentinel.Bus.{EventBus, Client, subscribe, new_bus}
use port_sentinel.Sniffer.Shm.{read_all_active_ports}
use port_sentinel.Tests.Sniffing.{platform, key, one_entry}
use port_sentinel.Base.Floats.{whole}

-- A service that is never asked.
instance abbrev no_service : ThreatService ℕ (Unit {0})
no_service = record { get_ip_metadata = λ t ip now. (no_metadata, t) }

abbrev client : Client String ℕ Event ℕ
client = record { run = λ h e w. (w + 1, true); event_type = event_type }

abbrev bus : EventBus String ℕ
bus = subscribe new_bus "policy_evaluated" 5

abbrev parts : Parts ℕ (Unit {0}) ℕ
parts = record {
  accumulator = record {
    metrics = new_metrics;
    cache = new_window 2;
    app_name_cache = [];
    threat_service = none;
  };
  engine = record { policies = []; on_trigger = none; last_trigger = []; cooldown = 60 };
  world = 0;
}

abbrev readings : ℕ → Reading
readings n = record {
  proc_name = λ pid. none;
  clock = λ k. seconds 9;
  policy_clock = λ k. seconds 9;
  stamp = record { event_id = "e"; timestamp = 7 };
}

run_pass_correct_example :
    let entries = read_all_active_ports platform key one_entry in
    let (after, table) = run_pass client bus (seconds 9) platform key one_entry readings parts in
    (port_row client bus (seconds 9) after 443
      ≡ as_read (seconds 9) entries 443 (port_row client bus (seconds 9) parts 443))
    × (table ≡ (
        if nat_keys.same (length entries) 0
        then none
        else some (get_port_table after.accumulator (some (seconds 9)) (seconds 9))))
    × IsValid after.accumulator.cache
run_pass_correct_example =
    run_pass_correct client bus (seconds 9) platform key one_entry readings parts 443
      (record { positive = omega arith; distinct = tt; good = tt })
