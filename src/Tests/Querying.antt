-- ===== src/Tests/Querying.antt =====
-- The queries for threats on a window of three snapshots.
use port_sentinel.Base.{
  All, ◌≡◌, ◌⊎◌, String, ℕ, [], ◌∷◌, Bool, true, some, text_keys, nat_keys, ◌==◌, ◌+◌, ◌*◌, map,
  keep, contains, leb, if◌then◌else◌,
}
use port_sentinel.Base.Floats.{whole}
use port_sentinel.Base.Sort.{IsSorted}
use port_sentinel.Base.Time.{seconds}
use port_sentinel.Base.Unique.{Unique}
use port_sentinel.Domain.Metadata.{ThreatService}
use port_sentinel.Domain.Snapshot.{PortSnapshot}
use port_sentinel.Metrics.Delta.{new_metrics}
use port_sentinel.Metrics.Accumulator.{TrafficAccumulator, no_metadata, get_port_table}
use port_sentinel.Queries.Geo.{simulated, handle_geo}
use port_sentinel.Queries.Geo.Loop.{Distinct, ips, is_shown, has_row}
use port_sentinel.Queries.Geo.Found.{handle_geo_correct}
use port_sentinel.Queries.Timeline.{in_timeline, simulated_timeline, handle_timeline}
use port_sentinel.Queries.Timeline.Buckets.{
  is_nonempty, of_threat, of_snapshot, at_bucket, of_bucket, all_snapshots,
}
use port_sentinel.Queries.Timeline.Answer.{handle_timeline_correct}

-- A service that counts its calls, and knows one address.
instance abbrev counting : ThreatService ℕ ℕ
counting = record {
  get_ip_metadata = λ t ip now. (
    if ip == "45.147.230.12" then record no_metadata { country = "RU"; risk = 9 } else no_metadata,
    t + 1,
  );
}

abbrev at_port : ℕ → ℕ → ℕ → String → PortSnapshot ℕ
at_port port time risk ip = record {
  timestamp = seconds time;
  port = port;
  pid = 7;
  app_name = "app";
  kb_s_in = 1;
  kb_s_out = 2;
  protocol = "TCP";
  direction = "both";
  risk_score = risk;
  remote_ip = ip;
  org = "org";
  country = "??";
}

abbrev pub threats_accumulator : TrafficAccumulator ℕ ℕ
threats_accumulator = record {
  metrics = new_metrics;
  cache = record {
    max_entries = 10;
    cache =
        (22, at_port 22 1000 1 "45.147.230.12" ∷ at_port 22 1301 5 "8.8.8.8" ∷ [])
        ∷ (80, at_port 80 1300 2 "45.147.230.12" ∷ [])
        ∷ (443, at_port 443 1302 9 "0.0.0.0" ∷ [])
        ∷ [];
  };
  app_name_cache = [];
  threat_service = some 0;
}

abbrev decimal : Bool → ℕ → ℕ
decimal negative digits = digits

handle_geo_correct_example :
    let rows = get_port_table threats_accumulator (some (seconds 1303)) (seconds 1303) in
    let (threats, service') =
      handle_geo (λ n. n) 4 decimal (some threats_accumulator) (some 0) (seconds 1303) in
    All (λ t. leb 4 t.risk ≡ true) threats
    × Distinct (ips threats)
    × All (λ p. contains (ips threats) p.remote_ip ≡ true) (keep (is_shown 4) rows)
    × (All (λ t. has_row rows t.ip t.port ≡ true) threats
        ⊎ ((threats ≡ simulated decimal 4) × (keep (is_shown 4) rows ≡ [])))
handle_geo_correct_example =
    handle_geo_correct (λ n. n) 4 decimal threats_accumulator (some 0) (seconds 1303)

handle_timeline_correct_example :
    let snapshots =
      keep (in_timeline 24 (seconds 1303)) (all_snapshots threats_accumulator.cache.cache) in
    let (timeline, after) =
      handle_timeline
        (λ n. n)
        decimal
        ◌*◌
        24
        (some threats_accumulator)
        (some 0)
        (seconds 1303)
        (seconds 1303) in
    ((snapshots ≡ []) × (timeline ≡ simulated_timeline decimal ◌*◌ (seconds 1303)))
    ⊎ ((is_nonempty snapshots ≡ true)
        × IsSorted (λ e. e.0) timeline
        × Unique (λ e. e.0) timeline
        × ((b : ℕ)
            → map of_threat (at_bucket b timeline) ≡ map of_snapshot (of_bucket b snapshots)))
handle_timeline_correct_example =
    handle_timeline_correct (λ n. n) decimal ◌*◌ 24 threats_accumulator (some 0) (seconds 1303)
      (seconds 1303)
