-- ===== src/Tests/Storing.antt =====
-- The database layer at concrete inputs.
use port_sentinel.Database.Retention.{prune_old_traffic_correct}
use port_sentinel.Database.Keyed.{with_key}
use port_sentinel.Database.Engine.{first}
use port_sentinel.Database.Reviews.{new_approval}
use port_sentinel.Base.Time.{seconds}
use port_sentinel.Database.Ports.{
  PortCall, after_calls, removes, adds, expected, get_blocked_ports_correct,
}
use port_sentinel.Database.History.{get_traffic_history, prune_old_traffic}
use port_sentinel.Database.Tables.{AnalystApproval, Database, TrafficHistory}
use port_sentinel.Database.Stores.{get_blocked_ports}
use port_sentinel.Base.Sort.{IsSorted}
use port_sentinel.Base.{List, ℕ, ◌≡◌, ◌∷◌, [], ◌+◌, length, arith, keep, ◌≤◌, refl}
use port_sentinel.Base.{nat_keys, text_keys}
use port_sentinel.Tests.Lists.{list_engine}
use port_sentinel.Base.Floats.{whole}

abbrev pub store : Database list_engine ℕ
store = record {
  traffic = [];
  processes = [];
  configs = [];
  blocked = [];
  audit = [];
  approvals = [];
  layouts = [];
  preferences = [];
}

abbrev calls : List PortCall
calls =
    removes 80 ∷ adds 443 "hard" "again" 9 ∷ adds 80 "soft" "web" 8 ∷ adds 443 "soft" "tls" 7 ∷ []

get_blocked_ports_correct_example :
    IsSorted (λ r. r.port) (get_blocked_ports list_engine (after_calls list_engine store calls))
    × ((p : ℕ)
        → (first
              (with_key (λ r. r.port) p)
              (get_blocked_ports list_engine (after_calls list_engine store calls))
            ≡ expected calls p)
          × (length (
                keep
                  (with_key (λ r. r.port) p)
                  (get_blocked_ports list_engine (after_calls list_engine store calls)))
              ≤ 1))
get_blocked_ports_correct_example = get_blocked_ports_correct list_engine store calls refl

abbrev row : ℕ → ℕ → TrafficHistory ℕ
row id timestamp = record {
  id = id;
  timestamp = timestamp;
  port = 80;
  pid = 7;
  app_name = "web";
  kb_s_in = 1;
  kb_s_out = 2;
  protocol = "TCP";
  direction = "both";
  risk_score = 0;
}

abbrev busy : Database list_engine ℕ
busy = record store { traffic = row 1 (seconds 100) ∷ row 2 (seconds 8_000) ∷ [] }

prune_old_traffic_correct_example :
    (get_traffic_history list_engine
        (prune_old_traffic list_engine busy 2 (seconds 9_000)).0
        80
        1
        (seconds 9_100)
      ≡ get_traffic_history list_engine busy 80 1 (seconds 9_100))
    × ((prune_old_traffic list_engine busy 2 (seconds 9_000)).1
          + length (
              list_engine.rows
                (TrafficHistory ℕ)
                (prune_old_traffic list_engine busy 2 (seconds 9_000)).0.traffic)
        ≡ length (list_engine.rows (TrafficHistory ℕ) busy.traffic))
prune_old_traffic_correct_example =
    prune_old_traffic_correct list_engine busy 80 1 2 (seconds 9_000) (seconds 9_100) (omega arith)
      (ground arith)

abbrev preferring : Database list_engine ℕ
preferring = record store { preferences = record { id = 1; key = "theme"; value = "dark" } ∷ [] }

abbrev waiting : AnalystApproval
waiting = new_approval 3 "suspend_process" "7" "scan" 40 5

abbrev pub asked : Database list_engine ℕ
asked = record store { approvals = waiting ∷ [] }
