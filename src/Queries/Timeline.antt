-- ===== src/Queries/Timeline.antt =====
-- `handle_timeline` of backend/application/queries/threats.py. A timestamp of the answer is in
-- ticks; `times` multiplies a float by a whole number, and `clock n` is the time of the n-th call
-- of the threat service.
pub mod Buckets
pub mod Answer
use port_sentinel.Base.{
  String, ℕ, List, [], ◌∷◌, ◌++◌, Bool, ◌&&◌, not, or_else, Option, some, none, max, leb, text_keys,
  nat_keys, ◌==◌, if◌then◌else◌, ◌+◌, ◌-◌, ◌*◌, ◌/◌, ◌%◌, map, take, length, false,
}
use port_sentinel.Base.Dict.{Dict, get, put}
use port_sentinel.Base.Floats.{Floats}
use port_sentinel.Base.Sort.{sorted}
use port_sentinel.Base.Time.{seconds}
use port_sentinel.Domain.Metadata.{Metadata, ThreatService}
use port_sentinel.Domain.Snapshot.{PortSnapshot}
use port_sentinel.Metrics.Accumulator.{TrafficAccumulator, enrich}
use port_sentinel.Queries.{Threat, simulated_threats, make_threat}

-- The dictionary of a threat of the timeline.
pub record TimelineThreat (F : Type 0) : Type 0 where
  pub threat : Threat F
  pub kb_s_in : F
  pub kb_s_out : F

abbrev pub Timeline : Type 0 → Type 0
Timeline F = Dict ℕ (List (TimelineThreat F))

-- `int(s.timestamp / bucket_size) * bucket_size`
unfoldable pub bucket_of : ℕ → ℕ
bucket_of timestamp = (timestamp / seconds 300) * seconds 300

unfoldable pub in_timeline : {F : Type 0} → ℕ → ℕ → PortSnapshot F → Bool
in_timeline hours now s =
    leb now (s.timestamp + seconds (hours * 3600)) && not (s.remote_ip == "0.0.0.0")

-- The variables of the loops.
pub record TimelineLoop (F T : Type 0) : Type 0 where
  pub buckets : Timeline F
  pub service : Option T
  pub calls : ℕ

-- `SIMULATED_THREATS[: (i % len(SIMULATED_THREATS) + 1)]`, as the i-th of twelve entries has it.
unfoldable pub simulated_entry :
    {F : Type 0} → (Bool → ℕ → F) → (F → ℕ → F) → ℕ → ℕ → ℕ × List (TimelineThreat F)
simulated_entry decimal times now i =
    let all = simulated_threats decimal in
    (
      now - seconds (i * 300),
      map
          (λ t. record {
            threat = t;
            kb_s_in = times (decimal false 142_000) (i % 3 + 1);
            kb_s_out = times (decimal false 51_000) (i % 2 + 1);
          })
          (take (i % length all + 1) all),
    )

unfoldable pub simulated_timeline : {F : Type 0} → (Bool → ℕ → F) → (F → ℕ → F) → ℕ → Timeline F
simulated_timeline decimal times now =
    map (simulated_entry decimal times now) (0 ∷ 1 ∷ 2 ∷ 3 ∷ 4 ∷ 5 ∷ 6 ∷ 7 ∷ 8 ∷ 9 ∷ 10 ∷ 11 ∷ [])

abbrev pub or_simulated_timeline : {F : Type 0} → Timeline F → Timeline F → Timeline F
or_simulated_timeline simulated [] = simulated
or_simulated_timeline simulated (e ∷ response) = e ∷ response

unfoldable pub add_event :
    {F : Type 0} ⦃fl : Floats F⦄ → PortSnapshot F → Metadata F → Timeline F → Timeline F
add_event s meta buckets =
    let threat = make_threat s.remote_ip meta (max s.risk_score meta.risk) s.port in
    let event : TimelineThreat _ = record {
      threat = record threat { org = s.org };
      kb_s_in = s.kb_s_in;
      kb_s_out = s.kb_s_out;
    } in
    let bucket = bucket_of s.timestamp in
    put buckets bucket (or_else (get buckets bucket) [] ++ event ∷ [])

module _ {F T : Type 0} ⦃fl : Floats F⦄ ⦃ts : ThreatService F T⦄ (clock : ℕ → ℕ)
    (hours now : ℕ) where
  abbrev pub add_snapshot :
      PortSnapshot F → Metadata F × Option T → TimelineLoop F T → TimelineLoop F T
  add_snapshot s (meta, service) l = record {
    buckets = add_event s meta l.buckets;
    service = service;
    calls = l.calls + 1;
  }

  unfoldable pub timeline_snapshot : PortSnapshot F → TimelineLoop F T → TimelineLoop F T
  timeline_snapshot s l =
      if in_timeline hours now s
      then add_snapshot s (enrich l.service s.remote_ip (clock l.calls)) l
      else l

  unfoldable pub timeline_snapshots : List (PortSnapshot F) → TimelineLoop F T → TimelineLoop F T
  timeline_snapshots [] l = l
  timeline_snapshots (s ∷ dq) l = timeline_snapshots dq (timeline_snapshot s l)

  unfoldable pub timeline_ports :
      Dict ℕ (List (PortSnapshot F)) → TimelineLoop F T → TimelineLoop F T
  timeline_ports [] l = l
  timeline_ports ((port, dq) ∷ ports) l = timeline_ports ports (timeline_snapshots dq l)

-- `later` is the time that the simulated timeline reads.
unfoldable pub handle_timeline :
    {F T : Type 0} ⦃fl : Floats F⦄ ⦃ts : ThreatService F T⦄
    → (ℕ → ℕ)
    → (Bool → ℕ → F)
    → (F → ℕ → F)
    → ℕ
    → Option (TrafficAccumulator F T)
    → Option T
    → ℕ
    → ℕ
    → Timeline F × Option T
handle_timeline clock decimal times hours none service now later =
    (simulated_timeline decimal times later, service)
handle_timeline clock decimal times hours (some accumulator) service now later =
    let l =
      timeline_ports clock hours now accumulator.cache.cache
        (record { buckets = []; service = service; calls = 0 }) in
    (
      or_simulated_timeline (simulated_timeline decimal times later) (sorted (λ e. e.0) l.buckets),
      l.service,
    )
