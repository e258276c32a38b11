-- ===== src/Queries/Geo/Loop.antt =====
-- The loop of `handle_geo` over the ports.
use port_sentinel.Base.{
  All, ◌≡◌, refl, String, ℕ, List, [], ◌∷◌, ◌++◌, Bool, ◌||◌, ◌&&◌, not, true, false, Option, max,
  leb, contains, text_keys, ◌==◌, keep, map, nat_keys, arith, ap, Bool-cases, inl, inr, ◌∙◌,
  All-append, same_refl,
}
use port_sentinel.Base.Floats.{Floats}
use port_sentinel.Domain.Metadata.{Metadata, ThreatService}
use port_sentinel.Metrics.Accumulator.{Row, enrich}
use port_sentinel.Queries.{Threat, make_threat}
use port_sentinel.Queries.Geo.{GeoLoop, add_threat, geo_port, geo_ports}

abbrev pub Distinct : List String → Type 0
Distinct [] = Unit
Distinct (x ∷ xs) = (contains xs x ≡ false) × Distinct xs

contains-append :
    (xs ys : List String) (a : String) → contains (xs ++ ys) a ≡ (contains xs a || contains ys a)
unfolding contains
contains-append [] ys a = refl
contains-append (x ∷ xs) ys a = ground (arith, contains-append xs ys a)

append-Distinct :
    (xs : List String) (a : String) → Distinct xs → contains xs a ≡ false → Distinct (xs ++ a ∷ [])
unfolding contains
append-Distinct [] a d h = (refl, tt)
append-Distinct (x ∷ xs) a d h = elim (Bool-cases (x == a)) [
  | inl y ↦ cc (rw y at h)
  | inr n ↦
      let other : contains xs a ≡ false = ground arith in
      let apart : (a == x) ≡ false =
        ground (arith, text_keys.same_iff a x, text_keys.same_iff x a) in
      (contains-append xs (a ∷ []) x ∙ rw (d.0, apart) refl, append-Distinct xs a d.1 other)
]

-- The addresses of a port's row, where it has one.
abbrev pub is_shown : {F : Type 0} → ℕ → Row F → Bool
is_shown min_risk p = not (p.remote_ip == "0.0.0.0") && leb min_risk p.risk_score

abbrev pub ips : {F : Type 0} → List (Threat F) → List String
ips threats = map (λ t. t.ip) threats

-- A row has an address and a port.
abbrev pub has_row : {F : Type 0} → List (Row F) → String → ℕ → Bool
has_row [] ip port = false
has_row (p ∷ ports) ip port = p.remote_ip == ip && p.port == port || has_row ports ip port

pub record IsGeo {F T : Type 0} (min_risk : ℕ) (rows : List (Row F)) (g : GeoLoop F T)
    : Type 0 where
  pub shown : ips g.threats ≡ g.seen_ips
  pub distinct : Distinct g.seen_ips
  pub risky : All (λ t. leb min_risk t.risk ≡ true) g.threats
  pub found : All (λ t. has_row rows t.ip t.port ≡ true) g.threats

pub or_true : (b : Bool) → (b || true) ≡ true
or_true true = refl
or_true false = refl

pub map-append :
    {A B : Type 0} → (f : A → B) (xs ys : List A) → map f (xs ++ ys) ≡ map f xs ++ map f ys
map-append f [] ys = refl
map-append f (x ∷ xs) ys = ap (◌∷◌ (f x)) (map-append f xs ys)

module _ {F T : Type 0} ⦃fl : Floats F⦄ ⦃ts : ThreatService F T⦄ (clock : ℕ → ℕ) (min_risk : ℕ)
    (rows : List (Row F)) where
  add_threat-IsGeo :
      (p : Row F) (o : Metadata F × Option T) (g : GeoLoop F T)
      → has_row rows p.remote_ip p.port ≡ true
      → contains g.seen_ips p.remote_ip ≡ false
      → IsGeo min_risk rows g
      → IsGeo min_risk rows (add_threat clock min_risk p o g)
  unfolding make_threat
  add_threat-IsGeo p (meta, service) g f n h =
      elim (Bool-cases (leb min_risk (max p.risk_score meta.risk))) [
        | inr e ↦
            rw e
              (record { shown = h.shown; distinct = h.distinct; risky = h.risky; found = h.found })
        | inl e ↦ rw e (record {
          shown = map-append (λ t. t.ip) g.threats _ ∙ ap (λ l. l ++ p.remote_ip ∷ []) h.shown;
          distinct = append-Distinct g.seen_ips p.remote_ip h.distinct n;
          risky = All-append (λ t. leb min_risk t.risk ≡ true) g.threats _ h.risky (e, tt);
          found = All-append (λ t. has_row rows t.ip t.port ≡ true) g.threats _ h.found (f, tt);
        })
      ]

  -- An address that was seen stays so, and that of a shown row is seen.
  record Sees (p : Row F) (g h : GeoLoop F T) : Type 0 where
    kept : (ip : String) → contains g.seen_ips ip ≡ true → contains h.seen_ips ip ≡ true
    sees : is_shown min_risk p ≡ true → contains h.seen_ips p.remote_ip ≡ true

  add_threat-Sees :
      (p : Row F) (o : Metadata F × Option T) (g : GeoLoop F T)
      → Sees p g (add_threat clock min_risk p o g)
  unfolding contains
  add_threat-Sees p (meta, service) g =
      elim (Bool-cases (leb min_risk (max p.risk_score meta.risk))) [
        | inr e ↦ rw e (record { kept = λ ip k. k; sees = λ k. ground arith })
        | inl e ↦ rw e (record {
          kept = λ ip k. contains-append g.seen_ips (p.remote_ip ∷ []) ip ∙ rw k refl;
          sees = λ k.
              contains-append g.seen_ips (p.remote_ip ∷ []) p.remote_ip
              ∙ rw (same_refl p.remote_ip) (or_true (contains g.seen_ips p.remote_ip));
        })
      ]

  geo_port_correct :
      (p : Row F) (g : GeoLoop F T)
      → has_row rows p.remote_ip p.port ≡ true
      → IsGeo min_risk rows g
      → IsGeo min_risk rows (geo_port clock min_risk p g) × Sees p g (geo_port clock min_risk p g)
  unfolding geo_port
  geo_port_correct p g f h =
      elim (Bool-cases (p.remote_ip == "0.0.0.0" || contains g.seen_ips p.remote_ip)) [
        | inl y ↦ rw y (h, record { kept = λ ip k. k; sees = λ k. ground arith })
        | inr n ↦
            let o : Metadata F × Option T = enrich g.service p.remote_ip (clock g.calls) in
            let fresh : contains g.seen_ips p.remote_ip ≡ false = ground arith in
            rw n (add_threat-IsGeo p o g f fresh h, add_threat-Sees p o g)
      ]

  pub geo_ports_correct :
      (ports : List (Row F)) (g : GeoLoop F T)
      → All (λ p. has_row rows p.remote_ip p.port ≡ true) ports
      → IsGeo min_risk rows g
      → let done = geo_ports clock min_risk ports g in
        IsGeo min_risk rows done
        × ((ip : String) → contains g.seen_ips ip ≡ true → contains done.seen_ips ip ≡ true)
        × All (λ p. contains done.seen_ips p.remote_ip ≡ true) (keep (is_shown min_risk) ports)
  unfolding geo_ports keep
  geo_ports_correct [] g f h = (h, (λ ip k. k), tt)
  geo_ports_correct (p ∷ ports) g f h =
      let (now, step) = geo_port_correct p g f.0 h in
      let (after, kept, all) = geo_ports_correct ports (geo_port clock min_risk p g) f.1 now in
      (
        after,
        (λ ip k. kept ip (step.kept ip k)),
        elim (Bool-cases (is_shown min_risk p)) [
          | inl y ↦ rw y (kept p.remote_ip (step.sees y), all)
          | inr n ↦ rw n all
        ],
      )
