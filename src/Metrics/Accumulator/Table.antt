-- ===== src/Metrics/Accumulator/Table.antt =====
-- The port table.
use mathlib.Core.Option.{some-injective}
use mathlib.Core.Path.{subst}
use mathlib.Core.Option
use port_sentinel.Base.Dict.{
  Dict, get, values, IsDict, Absent, get-put, All-put, put-IsDict, Keyed, find_by, find_by-values,
  get_of_Absent,
}
use port_sentinel.Base.Floats.{Floats}
use port_sentinel.Base.Sort.{sorted, IsSorted, sorted-IsSorted}
use port_sentinel.Base.Unique.{
  filter_some, Unique, sorted-Unique, IsSorted-keep, keep-Unique, find_by-keep, find_by-sorted,
}
use port_sentinel.Base.{
  ℕ, ◌≤◌, ◌≡◌, ◌≢◌, refl, sym, ap, ◌∙◌, List, [], ◌∷◌, map, Option, none, some, nat_keys, ◌==◌,
  or_else, last?, keep, arith, Bool-cases, inl, inr, if◌then◌else◌, All,
}
use port_sentinel.Domain.Snapshot.{PortSnapshot}
use port_sentinel.Metrics.Accumulator.{
  TrafficAccumulator, Row, make_row, set_latest, collect_latest, is_active, get_port_table,
}
use port_sentinel.Metrics.Window.History.{entries}
use port_sentinel.Metrics.Window.Valid.{IsValid, IsGood}

-- Rows instead of snapshots.
module _ {F : Type 0} ⦃fl : Floats F⦄ where
  find_by-map :
      (k : ℕ) (xs : List (PortSnapshot F))
      → find_by (λ r. r.port) k (map make_row xs) ≡ Option.map make_row (find_by (λ s. s.port) k xs)
  unfolding find_by make_row
  find_by-map k [] = refl
  find_by-map k (x ∷ xs) = ground (arith, find_by-map k xs)

  All-rows :
      (P : ℕ → Type 0) (ys : List (PortSnapshot F))
      → All (λ s. P s.port) ys
      → All (λ r. P r.port) (map make_row ys)
  unfolding make_row
  All-rows P [] a = tt
  All-rows P (y ∷ ys) a = (a.0, All-rows P ys a.1)

  IsSorted-map :
      (xs : List (PortSnapshot F))
      → IsSorted (λ s. s.port) xs
      → IsSorted (λ r. r.port) (map make_row xs)
  unfolding make_row
  IsSorted-map [] s = tt
  IsSorted-map (x ∷ xs) s = (All-rows (λ k. x.port ≤ k) xs s.0, IsSorted-map xs s.1)

  Unique-map :
      (xs : List (PortSnapshot F))
      → Unique (λ s. s.port) xs
      → Unique (λ r. r.port) (map make_row xs)
  unfolding make_row
  Unique-map [] s = tt
  Unique-map (x ∷ xs) s = (All-rows (λ k. k ≢ x.port) xs s.0, Unique-map xs s.1)

module _ {F : Type 0} where
  abbrev newer : Option (PortSnapshot F) → Option (PortSnapshot F) → Option (PortSnapshot F)
  newer none old = old
  newer (some s) old = some s

  newer-none : (o : Option (PortSnapshot F)) → newer o none ≡ o
  newer-none none = refl
  newer-none (some s) = refl

  get-set_latest :
      (q : ℕ) (o : Option (PortSnapshot F)) (acc : Dict ℕ (PortSnapshot F)) (p : ℕ)
      → get (set_latest q o acc) p ≡ (if q == p then newer o (get acc p) else get acc p)
  get-set_latest q none acc p = ground arith
  get-set_latest q (some s) acc p = get-put acc q s p

  get-collect_latest :
      (d : Dict ℕ (List (PortSnapshot F))) (acc : Dict ℕ (PortSnapshot F)) (p : ℕ)
      → IsDict d
      → get (collect_latest d acc) p ≡ newer (last? (or_else (get d p) [])) (get acc p)
  unfolding collect_latest get
  get-collect_latest [] acc p h = refl
  get-collect_latest ((q, xs) ∷ d) acc p h = elim (Bool-cases (q == p)) [
    | inl e ↦
        let same : q ≡ p = ground arith in
        let gone : get d p ≡ none = get_of_Absent d p (subst (λ k. Absent k d) same h.0) in
        get-collect_latest d (set_latest q (last? xs) acc) p h.1
        ∙ rw (gone, e) (get-set_latest q (last? xs) acc p ∙ rw e)
    | inr e ↦
        get-collect_latest d (set_latest q (last? xs) acc) p h.1
        ∙ rw e
            (ap (newer (last? (or_else (get d p) []))) (get-set_latest q (last? xs) acc p ∙ rw e))
  ]

  All-last :
      (P : PortSnapshot F → Type 0) (xs : List (PortSnapshot F)) (s : PortSnapshot F)
      → All P xs
      → last? xs ≡ some s
      → P s
  All-last P [] s h e = cc
  All-last P (x ∷ []) s h e = let same : x ≡ s = ground arith in subst P same h.0
  All-last P (x ∷ y ∷ xs) s h e = All-last P (y ∷ xs) s h.1 e

  Keyed-set_latest :
      (q : ℕ) (xs : List (PortSnapshot F)) (o : Option (PortSnapshot F))
      (acc : Dict ℕ (PortSnapshot F))
      → last? xs ≡ o
      → All (λ s. s.port ≡ q) xs
      → Keyed (λ s. s.port) acc
      → Keyed (λ s. s.port) (set_latest q o acc)
  Keyed-set_latest q xs none acc e h k = k
  Keyed-set_latest q xs (some s) acc e h k =
      All-put (λ x. x.1.port ≡ x.0) acc q s (All-last (λ x. x.port ≡ q) xs s h e) k

  IsDict-set_latest :
      (q : ℕ) (o : Option (PortSnapshot F)) (acc : Dict ℕ (PortSnapshot F))
      → IsDict acc
      → IsDict (set_latest q o acc)
  IsDict-set_latest q none acc h = h
  IsDict-set_latest q (some s) acc h = put-IsDict acc q s h

  Keyed-collect_latest :
      (m : ℕ) (d : Dict ℕ (List (PortSnapshot F))) (acc : Dict ℕ (PortSnapshot F))
      → All (IsGood m) d
      → Keyed (λ s. s.port) acc
      → IsDict acc
      → Keyed (λ s. s.port) (collect_latest d acc) × IsDict (collect_latest d acc)
  unfolding collect_latest
  Keyed-collect_latest m [] acc g k i = (k, i)
  Keyed-collect_latest m ((q, xs) ∷ d) acc g k i =
      Keyed-collect_latest m d (set_latest q (last? xs) acc) g.1
        (Keyed-set_latest q xs (last? xs) acc refl g.0.2 k) (IsDict-set_latest q (last? xs) acc i)

  apart :
      (q n : ℕ) (d : Dict ℕ (PortSnapshot F))
      → n ≡ q
      → Keyed (λ x. x.port) d
      → Absent q d
      → All (λ x. x.port ≢ n) (values d)
  apart q n [] e k i = tt
  apart q n ((j, s) ∷ d) e k i = (λ p. i.0 (sym k.0 ∙ p ∙ e), apart q n d e k.1 i.1)

  Unique-values :
      (d : Dict ℕ (PortSnapshot F))
      → Keyed (λ s. s.port) d
      → IsDict d
      → Unique (λ s. s.port) (values d)
  Unique-values [] k i = tt
  Unique-values ((q, s) ∷ d) k i = (apart q s.port d k.0 k.1 i.0, Unique-values d k.1 i.1)

module _ {F T : Type 0} ⦃fl : Floats F⦄ (a : TrafficAccumulator F T) (now : ℕ)
    (v : IsValid a.cache) where
  abbrev pub table : List (Row F)
  table = get_port_table a (some now) now

  -- The table of a valid window is sorted by port and has no port twice; the row of a port is that
  -- of the last snapshot in the port's history, if there is one that is at most five seconds old,
  -- and otherwise there is none.
  pub get_port_table_correct :
      IsSorted (λ r. r.port) table
      × Unique (λ r. r.port) table
      × ((p : ℕ)
          → find_by (λ r. r.port) p table
            ≡ Option.map make_row (filter_some (is_active now) (last? (entries a.cache p))))
  unfolding get_port_table get
  get_port_table_correct =
      let latest = collect_latest a.cache.cache [] in
      let (keyed, dict) = Keyed-collect_latest a.cache.max_entries a.cache.cache [] v.good tt tt in
      let all = values latest in
      let unique : Unique (λ s. s.port) (sorted (λ s. s.port) all) =
        sorted-Unique (λ s. s.port) all (Unique-values latest keyed dict) in
      let live = keep (is_active now) (sorted (λ s. s.port) all) in
      (
        IsSorted-map live (
            IsSorted-keep (λ s. s.port) (is_active now) (sorted (λ s. s.port) all)
              (sorted-IsSorted (λ s. s.port) all)),
        Unique-map live
            (keep-Unique (λ s. s.port) (is_active now) (sorted (λ s. s.port) all) unique),
        λ p.
            find_by-map p live
            ∙ ap (Option.map make_row) (
                find_by-keep (λ s. s.port) (is_active now) p (sorted (λ s. s.port) all) unique
                ∙ ap (filter_some (is_active now)) (
                    find_by-sorted (λ s. s.port) p all
                    ∙ find_by-values (λ s. s.port) p latest keyed
                    ∙ get-collect_latest a.cache.cache [] p v.distinct
                    ∙ newer-none (last? (entries a.cache p)))),
      )
