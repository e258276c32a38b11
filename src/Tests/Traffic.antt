-- ===== src/Tests/Traffic.antt =====
-- The traffic metrics at concrete inputs.
use mathlib.Core.Option
use port_sentinel.Metrics.Window.{push}
use port_sentinel.Base.Dict.{get, put}
use port_sentinel.Base.Dict.{find_by}
use port_sentinel.Base.Sort.{IsSorted}
use port_sentinel.Base.Time.{seconds}
use port_sentinel.Base.Unique.{Unique, filter_some}
use port_sentinel.Base.Floats.{whole}
use port_sentinel.Base.{
  ℕ, ◌+◌, ◌-◌, ◌%◌, ◌^◌, ◌≡◌, String, List, [], ◌∷◌, Option, none, some, nat_keys, arith, keep,
  last?, if◌then◌else◌, leb,
}
use port_sentinel.Domain.Snapshot.{PortSnapshot}
use port_sentinel.Metrics.Delta.{ByteSnapshot, new_metrics, calculate_delta}
use port_sentinel.Metrics.Delta.Wrap.{observe, delta_of_two}
use port_sentinel.Metrics.Window.{
  SlidingWindowCache, new_window, add, evict_stale, get_history, select, total_entries,
}
use port_sentinel.Metrics.Window.History.{entries, add_all, get_history-add_all}
use port_sentinel.Metrics.Window.Eviction.{is_fresh, evict_stale_correct}
use port_sentinel.Metrics.Window.Valid.{IsValid, Call, perform_all, perform_all-IsValid}
use port_sentinel.Metrics.Accumulator.{TrafficAccumulator, make_row, is_active, resolve_app_name}
use port_sentinel.Metrics.Accumulator.Names.{Source, IsCurrent, resolve_app_name-IsCurrent}
use port_sentinel.Metrics.Accumulator.Table.{table, get_port_table_correct}

abbrev first : ByteSnapshot
first = record { timestamp = seconds 10; bytes_in = 2 ^ 64 - 1024; bytes_out = 0 }

-- The input counter wraps between the two readings.
delta_of_two_example :
    (calculate_delta {F = ℕ}
      (observe ℕ (observe ℕ new_metrics 443 first) 80 first)
      443
      ((2 ^ 64 - 1024 + 4096) % 2 ^ 64)
      ((0 + 2048) % 2 ^ 64)
      (some (seconds 12))
      0).0
    ≡ (2, 1)
delta_of_two_example =
    delta_of_two new_metrics 443 80 first first 4096 2048 (seconds 12) 0 (omega arith) (omega arith)
      (omega arith) (omega arith) (omega arith)

abbrev snap : ℕ → ℕ → PortSnapshot ℕ
snap port s = record {
  timestamp = seconds s;
  port = port;
  pid = 77;
  app_name = "curl";
  kb_s_in = 80;
  kb_s_out = 40;
  protocol = "TCP";
  direction = "both";
  risk_score = 7;
  remote_ip = "203.0.113.9";
  org = "Unknown";
  country = "??";
}

abbrev snaps : List (PortSnapshot ℕ)
snaps = snap 443 1 ∷ snap 80 2 ∷ snap 443 3 ∷ snap 443 4 ∷ []

get_history-add_all_example :
    get_history (add_all (new_window 2) snaps) 443 none (seconds 5) ≡ snap 443 3 ∷ snap 443 4 ∷ []
unfolding select keep
get_history-add_all_example = get_history-add_all 2 snaps 443 none (seconds 5)

abbrev window : SlidingWindowCache ℕ
window = add (add (new_window 2) (snap 443 1)) (snap 80 4)

abbrev calls : List (Call ℕ)
calls = Call.add_call (snap 443 1) ∷ Call.add_call (snap 80 4) ∷ []

perform_all-IsValid_example : IsValid (perform_all (new_window 2) calls)
perform_all-IsValid_example = perform_all-IsValid 2 calls (omega arith)

window-IsValid : IsValid window
window-IsValid = perform_all-IsValid 2 calls (omega arith)

window-IsSorted : IsSorted (λ s. s.timestamp) (entries window 443)
unfolding add push get put
window-IsSorted = (tt, tt)

evict_stale_correct_example :
    ((evict_stale window 2 (seconds 5)).0 + total_entries (evict_stale window 2 (seconds 5)).1
      ≡ total_entries window)
    × (entries (evict_stale window 2 (seconds 5)).1 443
        ≡ keep (is_fresh (seconds 5) 2) (entries window 443))
evict_stale_correct_example =
    evict_stale_correct (seconds 5) 2 window 443 window-IsValid.distinct window-IsSorted

abbrev accumulator : TrafficAccumulator ℕ (Unit {0})
accumulator = record {
  metrics = new_metrics;
  cache = window;
  app_name_cache = [];
  threat_service = none;
}

get_port_table_correct_example :
    IsSorted (λ r. r.port) (table accumulator (seconds 8) window-IsValid)
    × Unique (λ r. r.port) (table accumulator (seconds 8) window-IsValid)
    × ((p : ℕ)
        → find_by (λ r. r.port) p (table accumulator (seconds 8) window-IsValid)
          ≡ Option.map make_row (filter_some (is_active (seconds 8)) (last? (entries window p))))
get_port_table_correct_example = get_port_table_correct accumulator (seconds 8) window-IsValid

abbrev names : ℕ → Option String
names pid = if leb pid 100 then some "nginx" else none

resolve_app_name-IsCurrent_example :
    Source names [] 80 (seconds 9) (resolve_app_name names [] 80 (seconds 9)).0
    × IsCurrent
        (resolve_app_name names [] 80 (seconds 9)).1
        80
        (resolve_app_name names [] 80 (seconds 9)).0
        (seconds 9)
resolve_app_name-IsCurrent_example = resolve_app_name-IsCurrent names [] 80 (seconds 9)
