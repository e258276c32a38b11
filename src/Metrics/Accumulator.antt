-- ===== src/Metrics/Accumulator.antt =====
-- `TrafficAccumulator`. The n-th call of `time.time()` in one method returns `clock n`, and
-- `proc_name` is `psutil.Process(pid).name()`, with nothing where it raises.
pub mod Names
pub mod Table
use port_sentinel.Base.Dict.{Dict, get, put, values}
use port_sentinel.Base.Floats.{Floats}
use port_sentinel.Base.Sort.{sorted}
use port_sentinel.Base.Time.{seconds}
use port_sentinel.Base.{
  ℕ, ◌+◌, max, String, Bool, ◌||◌, List, [], ◌∷◌, map, Option, none, some, leb, ltb, if◌then◌else◌,
  nat_keys, ◌==◌, or_else, length, last?, keep,
}
use port_sentinel.Domain.Metadata.{Metadata, ThreatService}
use port_sentinel.Domain.Snapshot.{PortSnapshot}
use port_sentinel.Metrics.Delta.{PortMetrics, calculate_delta, new_metrics}
use port_sentinel.Metrics.Window.{
  SlidingWindowCache, add, evict_stale, new_window, max_window_entries,
}

-- `active_port_ttl_seconds`, `_PID_CACHE_TTL`, `_PID_CACHE_MAX`
abbrev pub active_port_ttl : ℕ
active_port_ttl = seconds 5

abbrev pub pid_cache_ttl : ℕ
pid_cache_ttl = seconds 60

abbrev pub pid_cache_max : ℕ
pid_cache_max = 500

abbrev pub NameCache : Type 0
NameCache = Dict ℕ (String × ℕ)

pub record TrafficAccumulator (F T : Type 0) : Type 0 where
  pub metrics : PortMetrics
  pub cache : SlidingWindowCache F
  pub app_name_cache : NameCache
  pub threat_service : Option T

unfoldable pub new_accumulator : {F T : Type 0} → Option T → TrafficAccumulator F T
new_accumulator threat_service = record {
  metrics = new_metrics;
  cache = new_window max_window_entries;
  app_name_cache = [];
  threat_service = threat_service;
}

-- The name that is not cached.
unfoldable pub fresh_name : (ℕ → Option String) → ℕ → String
fresh_name proc_name pid =
    if pid == 0 || pid == 1 || pid == 4 then "System" else or_else (proc_name pid) "Unknown"

-- `self._app_name_cache[pid] = (name, now)` and the purge behind it.
unfoldable pub store_name : NameCache → ℕ → String → ℕ → NameCache
store_name cache pid name now =
    let stored = put cache pid (name, now) in
    if ltb pid_cache_max (length stored)
    then keep (λ e. ltb now (e.1.1 + seconds 300)) stored
    else stored

unfoldable pub resolve_app_name : (ℕ → Option String) → NameCache → ℕ → ℕ → String × NameCache
resolve_app_name proc_name cache pid now =
    let name = fresh_name proc_name pid in
    let miss : String × NameCache = (name, store_name cache pid name now) in
    elim (get cache pid) [
      | none ↦ miss
      | some (cached, resolved_at) ↦
          if ltb now (resolved_at + pid_cache_ttl) then (cached, cache) else miss
    ]

-- `meta` where no service is set.
abbrev pub no_metadata : {F : Type 0} → Metadata F
no_metadata = record {
  org = "Unknown";
  country = "??";
  risk = 0;
  city = none;
  latitude = none;
  longitude = none;
}

module _ {F T : Type 0} ⦃ts : ThreatService F T⦄ where
  unfoldable pub enrich : Option T → String → ℕ → Metadata F × Option T
  enrich none remote_ip now = (no_metadata, none)
  enrich (some service) remote_ip now =
      let (meta, service') = ts.get_ip_metadata service remote_ip now in (meta, some service')

-- The arguments of `process_port_data`.
pub record PortData : Type 0 where
  pub port : ℕ
  pub bytes_in : ℕ
  pub bytes_out : ℕ
  pub pid : ℕ
  pub protocol : ℕ
  pub timestamp : Option ℕ
  pub risk_score : ℕ
  pub remote_ip : String

module _ {F T : Type 0} ⦃fl : Floats F⦄ ⦃ts : ThreatService F T⦄ where
  unfoldable pub process_port_data :
      (ℕ → Option String)
      → (ℕ → ℕ)
      → TrafficAccumulator F T
      → PortData
      → PortSnapshot F × TrafficAccumulator F T
  process_port_data proc_name clock a d =
      let timestamp = or_else d.timestamp (clock 0) in
      let ((kb_s_in, kb_s_out), metrics) =
        calculate_delta {F = F} a.metrics d.port d.bytes_in d.bytes_out (some timestamp)
          timestamp in
      let (app_name, app_name_cache) =
        resolve_app_name proc_name a.app_name_cache d.pid (clock 1) in
      let (meta, threat_service) = enrich {F = F} a.threat_service d.remote_ip (clock 2) in
      let snapshot : PortSnapshot F = record {
        timestamp = timestamp;
        port = d.port;
        pid = d.pid;
        app_name = app_name;
        kb_s_in = kb_s_in;
        kb_s_out = kb_s_out;
        protocol = if d.protocol == 0 then "TCP" else "UDP";
        direction = "both";
        risk_score = max d.risk_score meta.risk;
        remote_ip = d.remote_ip;
        org = meta.org;
        country = meta.country;
      } in
      (
        snapshot,
        record {
          metrics = metrics;
          cache = add a.cache snapshot;
          app_name_cache = app_name_cache;
          threat_service = threat_service;
        },
      )

-- A row of the port table.
pub record Row (F : Type 0) : Type 0 where
  pub port : ℕ
  pub pid : ℕ
  pub app_name : String
  pub kb_s_in : F
  pub kb_s_out : F
  pub kb_s : F
  pub protocol : String
  pub direction : String
  pub risk_score : ℕ
  pub remote_ip : String
  pub org : String
  pub country : String
  pub timestamp : ℕ

unfoldable pub make_row : {F : Type 0} ⦃fl : Floats F⦄ → PortSnapshot F → Row F
make_row ⦃fl⦄ s = record {
  port = s.port;
  pid = s.pid;
  app_name = s.app_name;
  kb_s_in = s.kb_s_in;
  kb_s_out = s.kb_s_out;
  kb_s = fl.round2 (fl.add s.kb_s_in s.kb_s_out);
  protocol = s.protocol;
  direction = s.direction;
  risk_score = s.risk_score;
  remote_ip = s.remote_ip;
  org = s.org;
  country = s.country;
  timestamp = s.timestamp;
}

module _ {F : Type 0} where
  abbrev pub set_latest :
      ℕ → Option (PortSnapshot F) → Dict ℕ (PortSnapshot F) → Dict ℕ (PortSnapshot F)
  set_latest port none latest = latest
  set_latest port (some s) latest = put latest port s

  -- The loop that collects `dq[-1]` of each port.
  unfoldable pub collect_latest :
      Dict ℕ (List (PortSnapshot F)) → Dict ℕ (PortSnapshot F) → Dict ℕ (PortSnapshot F)
  collect_latest [] latest = latest
  collect_latest ((port, dq) ∷ ports) latest =
      collect_latest ports (set_latest port (last? dq) latest)

  unfoldable pub is_active : ℕ → PortSnapshot F → Bool
  is_active now s = leb now (s.timestamp + active_port_ttl)

  unfoldable pub get_port_table :
      {T : Type 0} ⦃fl : Floats F⦄ → TrafficAccumulator F T → Option ℕ → ℕ → List (Row F)
  get_port_table a current_time reading =
      let now = or_else current_time reading in
      map make_row
        (keep (is_active now) (sorted (λ s. s.port) (values (collect_latest a.cache.cache []))))

  unfoldable pub cleanup : {T : Type 0} → TrafficAccumulator F T → ℕ → TrafficAccumulator F T
  cleanup a now = record a { cache = (evict_stale a.cache 86_400 now).1 }
