-- ===== src/Queries/Timeline/Answer.antt =====
-- The timeline that `handle_timeline` returns.
use port_sentinel.Base.{
  ◌≡◌, ◌⊎◌, refl, ap, ◌∙◌, sym, Bool-cases, inl, inr, leb, ℕ, List, [], ◌∷◌, Bool, true, false,
  Option, some, nat_keys, ◌==◌, if◌then◌else◌, map, keep, arith, or_else,
}
use port_sentinel.Base.Dict.{Dict, get, IsDict}
use port_sentinel.Base.Floats.{Floats}
use port_sentinel.Base.Sort.{insert, sorted, IsSorted, sorted-IsSorted}
use port_sentinel.Base.Unique.{Unique, sorted-Unique}
use port_sentinel.Domain.Metadata.{ThreatService}
use port_sentinel.Metrics.Accumulator.{TrafficAccumulator}
use port_sentinel.Queries.Timeline.{
  Timeline, in_timeline, simulated_timeline, or_simulated_timeline, timeline_ports, handle_timeline,
  TimelineThreat, TimelineLoop,
}
use port_sentinel.Queries.Timeline.Buckets.{
  is_nonempty, of_threat, of_snapshot, at_bucket, of_bucket, all_snapshots, timeline_ports-Filled,
}

module _ {V : Type 0} where
  abbrev by_key : List (ℕ × V) → List (ℕ × V)
  by_key d = sorted (λ e. e.0) d

  get-insert :
      (j : ℕ) (v : V) (d : Dict ℕ V) (k : ℕ)
      → get (insert (λ e. e.0) (j, v) d) k ≡ (if j == k then some v else get d k)
  unfolding insert get
  get-insert j v [] k = refl
  get-insert j v ((i, w) ∷ d) k = ground (arith, get-insert j v d k)

  get-sorted : (d : Dict ℕ V) (k : ℕ) → get (by_key d) k ≡ get d k
  unfolding sorted get
  get-sorted [] k = refl
  get-sorted ((j, v) ∷ d) k = get-insert j v (by_key d) k ∙ rw (get-sorted d k) refl

  IsDict-Unique : (d : Dict ℕ V) → IsDict d → Unique (λ e. e.0) d
  IsDict-Unique [] i = tt
  IsDict-Unique ((j, v) ∷ d) i = (i.0, IsDict-Unique d i.1)

or_simulated-insert :
    {F : Type 0} (simulated d : Timeline F) (e : ℕ × List (TimelineThreat F))
    → or_simulated_timeline simulated (insert (λ x. x.0) e d) ≡ insert (λ x. x.0) e d
unfolding insert
or_simulated-insert simulated [] e = refl
or_simulated-insert simulated (x ∷ d) e = elim (Bool-cases (leb e.0 x.0)) [
  | inl y ↦ rw y refl
  | inr n ↦ rw n refl
]

answer_cases :
    {F : Type 0} (simulated d : Timeline F)
    → ((is_nonempty d ≡ false) × (or_simulated_timeline simulated (by_key d) ≡ simulated))
      ⊎ ((is_nonempty d ≡ true) × (or_simulated_timeline simulated (by_key d) ≡ by_key d))
unfolding sorted
answer_cases simulated [] = inl (refl, refl)
answer_cases simulated (e ∷ d) = inr (refl, or_simulated-insert simulated (by_key d) e)

nil_of_empty : {A : Type 0} (xs : List A) → is_nonempty xs ≡ false → xs ≡ []
nil_of_empty [] h = refl
nil_of_empty (x ∷ xs) h = cc

-- With an accumulator, `handle_timeline` returns the simulated timeline if the window has no
-- snapshot that is recent enough and has an address; or else buckets of 300 seconds, each once and
-- in the order of time, each of which has those snapshots whose time falls into it, in the order of
-- the window, with their addresses, organisations, ports and rates.
pub handle_timeline_correct :
    {F T : Type 0} ⦃fl : Floats F⦄ ⦃ts : ThreatService F T⦄ (clock : ℕ → ℕ) (decimal : Bool → ℕ → F)
    (times : F → ℕ → F) (hours : ℕ) (accumulator : TrafficAccumulator F T) (service : Option T)
    (now later : ℕ)
    → let snapshots = keep (in_timeline hours now) (all_snapshots accumulator.cache.cache) in
      let (timeline, after) =
        handle_timeline clock decimal times hours (some accumulator) service now later in
      ((snapshots ≡ []) × (timeline ≡ simulated_timeline decimal times later))
      ⊎ ((is_nonempty snapshots ≡ true)
          × IsSorted (λ e. e.0) timeline
          × Unique (λ e. e.0) timeline
          × ((b : ℕ)
              → map of_threat (at_bucket b timeline) ≡ map of_snapshot (of_bucket b snapshots)))
unfolding handle_timeline get
handle_timeline_correct clock decimal times hours accumulator service now later =
    let start : TimelineLoop _ _ = record { buckets = []; service = service; calls = 0 } in
    let done = (timeline_ports clock hours now accumulator.cache.cache start).buckets in
    let snapshots = keep (in_timeline hours now) (all_snapshots accumulator.cache.cache) in
    let h = timeline_ports-Filled clock hours now accumulator.cache.cache start in
    elim (answer_cases (simulated_timeline decimal times later) done) [
      | inl (none_there, simulated) ↦
          inl (nil_of_empty snapshots (sym h.some_bucket ∙ none_there), simulated)
      | inr (there, own) ↦ rw own (
          inr (
            sym h.some_bucket ∙ there,
            sorted-IsSorted (λ e. e.0) done,
            sorted-Unique (λ e. e.0) done (IsDict-Unique done (h.dict tt)),
            λ b. ap (λ o. map of_threat (or_else o [])) (get-sorted done b) ∙ h.filled b,
          ))
    ]
