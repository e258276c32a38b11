-- ===== src/Queries/Geo.antt =====
-- `handle_geo` and `handle_countries` of backend/application/queries/threats.py. The accumulator
-- and the threat service may be missing; `clock n` is the time of the n-th call of the service, and
-- the set of the addresses seen is a list in the order of addition.
pub mod Loop
pub mod Found
pub mod Counts
use port_sentinel.Base.Dict.{Dict, get, put}
use port_sentinel.Base.Floats.{Floats}
use port_sentinel.Base.{
  String, ℕ, List, [], ◌∷◌, ◌++◌, Bool, ◌||◌, or_else, Option, some, none, max, leb, contains,
  text_keys, ◌==◌, if◌then◌else◌, keep, ◌+◌,
}
use port_sentinel.Domain.Metadata.{Metadata, ThreatService}
use port_sentinel.Metrics.Accumulator.{TrafficAccumulator, Row, enrich, get_port_table}
use port_sentinel.Queries.{Threat, simulated_threats, make_threat}

-- The variables of the loop over the ports.
pub record GeoLoop (F T : Type 0) : Type 0 where
  pub threats : List (Threat F)
  pub seen_ips : List String
  pub service : Option T
  pub calls : ℕ

abbrev pub simulated : {F : Type 0} → (Bool → ℕ → F) → ℕ → List (Threat F)
simulated decimal min_risk = keep (λ t. leb min_risk t.risk) (simulated_threats decimal)

abbrev pub or_simulated : {F : Type 0} → (Bool → ℕ → F) → ℕ → List (Threat F) → List (Threat F)
or_simulated decimal min_risk [] = simulated decimal min_risk
or_simulated decimal min_risk (t ∷ threats) = t ∷ threats

abbrev pub start_geo : {F T : Type 0} → Option T → GeoLoop F T
start_geo service = record { threats = []; seen_ips = []; service = service; calls = 0 }

module _ {F T : Type 0} ⦃fl : Floats F⦄ ⦃ts : ThreatService F T⦄ (clock : ℕ → ℕ)
    (min_risk : ℕ) where
  abbrev pub add_threat : Row F → Metadata F × Option T → GeoLoop F T → GeoLoop F T
  add_threat p (meta, service) g =
      let risk = max p.risk_score meta.risk in
      let asked = record g { service = service; calls = g.calls + 1 } in
      if leb min_risk risk
      then record asked {
        seen_ips = g.seen_ips ++ p.remote_ip ∷ [];
        threats = g.threats ++ make_threat p.remote_ip meta risk p.port ∷ [];
      }
      else asked

  unfoldable pub geo_port : Row F → GeoLoop F T → GeoLoop F T
  geo_port p g =
      if p.remote_ip == "0.0.0.0" || contains g.seen_ips p.remote_ip
      then g
      else add_threat p (enrich g.service p.remote_ip (clock g.calls)) g

  unfoldable pub geo_ports : List (Row F) → GeoLoop F T → GeoLoop F T
  geo_ports [] g = g
  geo_ports (p ∷ ports) g = geo_ports ports (geo_port p g)

  -- `reading` is the time of the port table.
  unfoldable pub handle_geo :
      (Bool → ℕ → F) → Option (TrafficAccumulator F T) → Option T → ℕ → List (Threat F) × Option T
  handle_geo decimal none service reading = (simulated decimal min_risk, service)
  handle_geo decimal (some accumulator) service reading =
      let g = geo_ports (get_port_table accumulator (some reading) reading) (start_geo service) in
      (or_simulated decimal min_risk g.threats, g.service)

-- `country_counts[t["country"]] += 1`
unfoldable pub count_countries : {F : Type 0} → List (Threat F) → Dict String ℕ → Dict String ℕ
count_countries [] counts = counts
count_countries (t ∷ threats) counts =
    count_countries threats (put counts t.country (or_else (get counts t.country) 0 + 1))

-- The rows of the answer as pairs.
unfoldable pub handle_countries :
    {F T : Type 0} ⦃fl : Floats F⦄ ⦃ts : ThreatService F T⦄
    → (ℕ → ℕ)
    → (Bool → ℕ → F)
    → Option (TrafficAccumulator F T)
    → Option T
    → ℕ
    → Dict String ℕ × Option T
handle_countries clock decimal accumulator service reading =
    let (threats, service') = handle_geo clock 0 decimal accumulator service reading in
    (count_countries threats [], service')
