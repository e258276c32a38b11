-- ===== src/Queries/Timeline/Buckets.antt =====
-- What the loops of `handle_timeline` put into the buckets.
use mathlib.Core.Path.{subst}
use port_sentinel.Base.{
  ◌≡◌, refl, ap, ◌∙◌, sym, Bool-cases, inl, inr, keep-append, String, ℕ, List, [], ◌∷◌, ◌++◌, Bool,
  ◌||◌, true, false, or_else, nat_keys, ◌==◌, map, keep, append-nil, append_assoc, arith,
}
use port_sentinel.Base.Dict.{Dict, get, put, IsDict, get-put, put-IsDict}
use port_sentinel.Base.Floats.{Floats}
use port_sentinel.Domain.Metadata.{Metadata, ThreatService}
use port_sentinel.Domain.Snapshot.{PortSnapshot}
use port_sentinel.Metrics.Accumulator.{enrich}
use port_sentinel.Queries.{make_threat}
use port_sentinel.Queries.Geo.Loop.{map-append, or_true}
use port_sentinel.Queries.Timeline.{
  TimelineThreat, Timeline, bucket_of, in_timeline, TimelineLoop, add_event, add_snapshot,
  timeline_snapshot, timeline_snapshots, timeline_ports,
}

abbrev pub is_nonempty : {A : Type 0} → List A → Bool
is_nonempty [] = false
is_nonempty (x ∷ xs) = true

-- What an entry of the timeline and a snapshot have in common.
abbrev pub Seen : Type 0 → Type 0
Seen F = String × String × ℕ × F × F

abbrev pub of_threat : {F : Type 0} → TimelineThreat F → Seen F
of_threat t = (t.threat.ip, t.threat.org, t.threat.port, t.kb_s_in, t.kb_s_out)

abbrev pub of_snapshot : {F : Type 0} → PortSnapshot F → Seen F
of_snapshot s = (s.remote_ip, s.org, s.port, s.kb_s_in, s.kb_s_out)

abbrev pub at_bucket : {F : Type 0} → ℕ → Timeline F → List (TimelineThreat F)
at_bucket b d = or_else (get d b) []

abbrev pub of_bucket : {F : Type 0} → ℕ → List (PortSnapshot F) → List (PortSnapshot F)
of_bucket b snapshots = keep (λ s. bucket_of s.timestamp == b) snapshots

-- The snapshots went from one state of the buckets to the other.
pub record Filled {F : Type 0} (snapshots : List (PortSnapshot F)) (d e : Timeline F) : Type 0 where
  pub dict : IsDict d → IsDict e
  pub some_bucket : is_nonempty e ≡ (is_nonempty d || is_nonempty snapshots)
  pub filled :
      (b : ℕ)
      → map of_threat (at_bucket b e)
        ≡ map of_threat (at_bucket b d) ++ map of_snapshot (of_bucket b snapshots)

or_false : (b : Bool) → b ≡ (b || false)
or_false true = refl
or_false false = refl

or_or :
    {A : Type 0}
    → (a : Bool) (xs ys : List A)
    → ((a || is_nonempty xs) || is_nonempty ys) ≡ (a || is_nonempty (xs ++ ys))
or_or a [] ys = ap (λ b. b || is_nonempty ys) (sym (or_false a))
or_or true (x ∷ xs) ys = refl
or_or false (x ∷ xs) ys = refl

module _ {F : Type 0} where
  nothing-Filled : (d : Timeline F) → Filled [] d d
  unfolding keep
  nothing-Filled d = record {
    dict = λ i. i;
    some_bucket = or_false (is_nonempty d);
    filled = λ b. sym (append-nil (map of_threat (at_bucket b d)));
  }

  append-Filled :
      (xs ys : List (PortSnapshot F)) (d e f : Timeline F)
      → Filled xs d e
      → Filled ys e f
      → Filled (xs ++ ys) d f
  append-Filled xs ys d e f h k = record {
    dict = λ i. k.dict (h.dict i);
    some_bucket =
        k.some_bucket ∙ ap (λ b. b || is_nonempty ys) h.some_bucket ∙ or_or (is_nonempty d) xs ys;
    filled = λ b.
        k.filled b
        ∙ ap (λ l. l ++ map of_snapshot (of_bucket b ys)) (h.filled b)
        ∙ append_assoc (map of_threat (at_bucket b d)) (map of_snapshot (of_bucket b xs))
            (map of_snapshot (of_bucket b ys))
        ∙ ap (λ l. map of_threat (at_bucket b d) ++ l)
            (sym (
              ap (map of_snapshot) (keep-append (λ s. bucket_of s.timestamp == b) xs ys)
              ∙ map-append of_snapshot (of_bucket b xs) (of_bucket b ys)));
  }

  put-nonempty :
      (d : Timeline F) (k : ℕ) (v : List (TimelineThreat F)) → is_nonempty (put d k v) ≡ true
  unfolding put
  put-nonempty [] k v = refl
  put-nonempty ((j, w) ∷ d) k v = elim (Bool-cases (j == k)) [
    | inl y ↦ rw y refl
    | inr n ↦ rw n refl
  ]

  add_event-Filled :
      ⦃fl : Floats F⦄ (s : PortSnapshot F) (meta : Metadata F) (d : Timeline F)
      → Filled (s ∷ []) d (add_event s meta d)
  unfolding add_event make_threat keep
  add_event-Filled s meta d = record {
    dict = λ i. put-IsDict d (bucket_of s.timestamp) _ i;
    some_bucket = put-nonempty d (bucket_of s.timestamp) _ ∙ sym (or_true (is_nonempty d));
    filled = λ b. elim (Bool-cases (bucket_of s.timestamp == b)) [
      | inl y ↦
          let same : bucket_of s.timestamp ≡ b = ground arith in
          rw (get-put d (bucket_of s.timestamp) _ b, y)
            (map-append of_threat (at_bucket (bucket_of s.timestamp) d) _
              ∙ ap (λ j. map of_threat (at_bucket j d) ++ of_snapshot s ∷ []) same)
      | inr n ↦
          rw (get-put d (bucket_of s.timestamp) _ b, n)
            (sym (append-nil (map of_threat (at_bucket b d))))
    ];
  }

-- The snapshots of a window, port after port.
abbrev pub all_snapshots : {F : Type 0} → Dict ℕ (List (PortSnapshot F)) → List (PortSnapshot F)
all_snapshots [] = []
all_snapshots ((port, dq) ∷ ports) = dq ++ all_snapshots ports

module _ {F T : Type 0} ⦃fl : Floats F⦄ ⦃ts : ThreatService F T⦄ (clock : ℕ → ℕ)
    (hours now : ℕ) where
  timeline_snapshots-Filled :
      (dq : List (PortSnapshot F)) (l : TimelineLoop F T)
      → Filled
          (keep (in_timeline hours now) dq)
          l.buckets
          (timeline_snapshots clock hours now dq l).buckets
  unfolding timeline_snapshots timeline_snapshot keep
  timeline_snapshots-Filled [] l = nothing-Filled l.buckets
  timeline_snapshots-Filled (s ∷ dq) l = elim (Bool-cases (in_timeline hours now s)) [
    | inl y ↦
        let (meta, service) = enrich {F = F} {T = T} l.service s.remote_ip (clock l.calls) in
        let next = add_snapshot clock hours now s (meta, service) l in
        rw (timeline_snapshots, timeline_snapshot, y)
          (append-Filled (s ∷ []) (keep (in_timeline hours now) dq) l.buckets
            (add_event s meta l.buckets) (timeline_snapshots clock hours now dq next).buckets
            (add_event-Filled s meta l.buckets) (timeline_snapshots-Filled dq next))
    | inr n ↦ rw (timeline_snapshots, timeline_snapshot, n) (timeline_snapshots-Filled dq l)
  ]

  pub timeline_ports-Filled :
      (ports : Dict ℕ (List (PortSnapshot F))) (l : TimelineLoop F T)
      → Filled
          (keep (in_timeline hours now) (all_snapshots ports))
          l.buckets
          (timeline_ports clock hours now ports l).buckets
  unfolding timeline_ports keep
  timeline_ports-Filled [] l = nothing-Filled l.buckets
  timeline_ports-Filled ((port, dq) ∷ ports) l =
      let next = timeline_snapshots clock hours now dq l in
      subst
        (λ snapshots.
          Filled snapshots l.buckets (timeline_ports clock hours now ports next).buckets)
        (sym (keep-append (in_timeline hours now) dq (all_snapshots ports)))
        (append-Filled (keep (in_timeline hours now) dq)
          (keep (in_timeline hours now) (all_snapshots ports)) l.buckets next.buckets
          (timeline_ports clock hours now ports next).buckets (timeline_snapshots-Filled dq l)
          (timeline_ports-Filled ports next))
