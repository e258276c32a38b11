-- ===== src/Queries/Geo/Counts.antt =====
-- What `handle_countries` counts.
use port_sentinel.Base.{
  All, ◌≡◌, ◌≤◌, refl, length, nat_keys, String, ℕ, List, [], ◌∷◌, Bool, or_else, Option, text_keys,
  ◌==◌, keep, ◌+◌, arith, ◌∙◌, Bool-cases, inl, ap, inr,
}
use port_sentinel.Base.Dict.{Dict, get, put, IsDict, get-put, put-IsDict, All-put}
use port_sentinel.Base.Floats.{Floats}
use port_sentinel.Domain.Metadata.{ThreatService}
use port_sentinel.Metrics.Accumulator.{TrafficAccumulator}
use port_sentinel.Queries.{Threat}
use port_sentinel.Queries.Geo.{handle_geo, count_countries, handle_countries}

count_step :
    {F : Type 0} (t : Threat F) (threats : List (Threat F)) (counts : Dict String ℕ) (c : String)
    → or_else (get (put counts t.country (or_else (get counts t.country) 0 + 1)) c) 0
        + length (keep (λ u. u.country == c) threats)
      ≡ or_else (get counts c) 0 + length (keep (λ u. u.country == c) (t ∷ threats))
unfolding keep
count_step t threats counts c =
    let n = or_else (get counts t.country) 0 + 1 in
    elim (Bool-cases (t.country == c)) [
      | inl y ↦
          let same : t.country ≡ c = (text_keys.same_iff t.country c).0 y in
          rw (get-put counts t.country n c, y, ap (get counts) same) (ground arith)
      | inr m ↦ rw (get-put counts t.country n c, m) refl
    ]

count_countries_correct :
    {F : Type 0} (threats : List (Threat F)) (counts : Dict String ℕ)
    → IsDict counts
    → All (λ e. 1 ≤ e.1) counts
    → let done = count_countries threats counts in
      IsDict done
      × All (λ e. 1 ≤ e.1) done
      × ((c : String)
          → or_else (get done c) 0
            ≡ or_else (get counts c) 0 + length (keep (λ t. t.country == c) threats))
unfolding count_countries keep
count_countries_correct [] counts d a = (d, a, λ c. ground arith)
count_countries_correct (t ∷ threats) counts d a =
    let n = or_else (get counts t.country) 0 + 1 in
    let (d', a', h) =
      count_countries_correct threats (put counts t.country n) (put-IsDict counts t.country n d)
        (All-put (λ e. 1 ≤ e.1) counts t.country n (omega arith) a) in
    (d', a', λ c. h c ∙ count_step t threats counts c)

-- `handle_countries` gives each country of the threats that `handle_geo` finds for the risk 0 once,
-- with the number of those threats, which is never 0.
pub handle_countries_correct :
    {F T : Type 0} ⦃fl : Floats F⦄ ⦃ts : ThreatService F T⦄ (clock : ℕ → ℕ) (decimal : Bool → ℕ → F)
    (accumulator : Option (TrafficAccumulator F T)) (service : Option T) (reading : ℕ)
    → let (threats, after) = handle_geo clock 0 decimal accumulator service reading in
      let (counts, after') = handle_countries clock decimal accumulator service reading in
      IsDict counts
      × All (λ e. 1 ≤ e.1) counts
      × ((c : String) → or_else (get counts c) 0 ≡ length (keep (λ t. t.country == c) threats))
unfolding handle_countries get
handle_countries_correct clock decimal accumulator service reading =
    let (d, a, h) =
      count_countries_correct (handle_geo clock 0 decimal accumulator service reading).0 [] tt tt in
    (d, a, λ c. h c ∙ omega arith)
