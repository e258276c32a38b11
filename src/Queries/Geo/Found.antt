-- ===== src/Queries/Geo/Found.antt =====
-- Which threats `handle_geo` returns.
use mathlib.Core.Path.{subst}
use port_sentinel.Base.{
  All, ◌≡◌, refl, String, ℕ, List, [], ◌∷◌, Bool, true, false, Option, some, leb, contains,
  text_keys, keep, nat_keys, arith, Bool-cases, inl, inr, same_refl, ◌⊎◌, All-keep_test, sym,
}
use port_sentinel.Base.Floats.{Floats}
use port_sentinel.Domain.Metadata.{ThreatService}
use port_sentinel.Metrics.Accumulator.{TrafficAccumulator, Row, get_port_table}
use port_sentinel.Queries.{Threat, simulated_threats}
use port_sentinel.Queries.Geo.{geo_ports, start_geo, simulated, or_simulated, handle_geo}
use port_sentinel.Queries.Geo.Loop.{Distinct, ips, is_shown, has_row, geo_ports_correct}

has_row_grow :
    {F : Type 0} (q : Row F) (ports l : List (Row F))
    → All (λ p. has_row ports p.remote_ip p.port ≡ true) l
    → All (λ p. has_row (q ∷ ports) p.remote_ip p.port ≡ true) l
has_row_grow q ports [] h = tt
has_row_grow q ports (p ∷ l) h = (ground (arith, h.0), has_row_grow q ports l h.1)

has_row_self :
    {F : Type 0} (rows : List (Row F)) → All (λ p. has_row rows p.remote_ip p.port ≡ true) rows
has_row_self [] = tt
has_row_self (p ∷ rows) = (
  rw (same_refl p.remote_ip, same_refl p.port) refl,
  has_row_grow p rows rows (has_row_self rows),
)

contains-ips-keep :
    {F : Type 0} (p : Threat F → Bool) (threats : List (Threat F)) (ip : String)
    → contains (ips threats) ip ≡ false
    → contains (ips (keep p threats)) ip ≡ false
unfolding keep contains
contains-ips-keep p [] ip h = refl
contains-ips-keep p (t ∷ threats) ip h = ground (arith, contains-ips-keep p threats ip)

ips-keep-Distinct :
    {F : Type 0} (p : Threat F → Bool) (threats : List (Threat F))
    → Distinct (ips threats)
    → Distinct (ips (keep p threats))
unfolding keep
ips-keep-Distinct p [] d = tt
ips-keep-Distinct p (t ∷ threats) d = elim (Bool-cases (p t)) [
  | inl y ↦ rw y (contains-ips-keep p threats t.ip d.0, ips-keep-Distinct p threats d.1)
  | inr n ↦ rw n (ips-keep-Distinct p threats d.1)
]

none_of_All : {F : Type 0} (l : List (Row F)) → All (λ p. contains [] p.remote_ip ≡ true) l → l ≡ []
unfolding contains
none_of_All [] h = refl
none_of_All (p ∷ l) h = cc h.0

simulated-Distinct :
    {F : Type 0} (decimal : Bool → ℕ → F) (min_risk : ℕ)
    → Distinct (ips (simulated decimal min_risk))
unfolding simulated_threats contains
simulated-Distinct decimal min_risk =
    ips-keep-Distinct (λ t. leb min_risk t.risk) (simulated_threats decimal)
      (refl, (refl, (refl, (refl, (refl, (refl, tt))))))

module _ {F : Type 0} (min_risk : ℕ) (decimal : Bool → ℕ → F) where
  abbrev Answers : List (Row F) → List (Threat F) → Type 0
  Answers rows threats =
      All (λ t. leb min_risk t.risk ≡ true) threats
      × Distinct (ips threats)
      × All (λ p. contains (ips threats) p.remote_ip ≡ true) (keep (is_shown min_risk) rows)
      × (All (λ t. has_row rows t.ip t.port ≡ true) threats
          ⊎ ((threats ≡ simulated decimal min_risk) × (keep (is_shown min_risk) rows ≡ [])))

  or_simulated_correct :
      (rows : List (Row F)) (threats : List (Threat F))
      → All (λ t. leb min_risk t.risk ≡ true) threats
      → Distinct (ips threats)
      → All (λ t. has_row rows t.ip t.port ≡ true) threats
      → All (λ p. contains (ips threats) p.remote_ip ≡ true) (keep (is_shown min_risk) rows)
      → Answers rows (or_simulated decimal min_risk threats)
  or_simulated_correct rows [] risky distinct found all =
      let no_row = none_of_All (keep (is_shown min_risk) rows) all in
      (
        All-keep_test (λ t. leb min_risk t.risk) (simulated_threats decimal),
        simulated-Distinct decimal min_risk,
        rw no_row tt,
        inr (refl, no_row),
      )
  or_simulated_correct rows (t ∷ threats) risky distinct found all =
      (risky, distinct, all, inl found)

module _ {F T : Type 0} ⦃fl : Floats F⦄ ⦃ts : ThreatService F T⦄ (clock : ℕ → ℕ) (min_risk : ℕ)
    (decimal : Bool → ℕ → F) where
  -- With an accumulator, `handle_geo` returns threats of at least the asked risk, each address
  -- once, among them the address, if not 0.0.0.0, of every row of the port table whose own risk
  -- score is high enough; each of them has the address and the port of a row, or, if no row is of
  -- that kind, they may be the simulated threats of at least the asked risk.
  pub handle_geo_correct :
      (accumulator : TrafficAccumulator F T) (service : Option T) (reading : ℕ)
      → let rows = get_port_table accumulator (some reading) reading in
        let (threats, service') =
          handle_geo clock min_risk decimal (some accumulator) service reading in
        All (λ t. leb min_risk t.risk ≡ true) threats
        × Distinct (ips threats)
        × All (λ p. contains (ips threats) p.remote_ip ≡ true) (keep (is_shown min_risk) rows)
        × (All (λ t. has_row rows t.ip t.port ≡ true) threats
            ⊎ ((threats ≡ simulated decimal min_risk) × (keep (is_shown min_risk) rows ≡ [])))
  unfolding handle_geo
  handle_geo_correct accumulator service reading =
      let rows = get_port_table accumulator (some reading) reading in
      let (h, kept, all) =
        geo_ports_correct clock min_risk rows rows (start_geo service) (has_row_self rows)
          (record { shown = refl; distinct = tt; risky = tt; found = tt }) in
      let done = geo_ports clock min_risk rows (start_geo service) in
      or_simulated_correct min_risk decimal rows done.threats h.risky
        (subst Distinct (sym h.shown) h.distinct) h.found
        (subst (λ l. All (λ p. contains l p.remote_ip ≡ true) (keep (is_shown min_risk) rows))
          (sym h.shown) all)
