-- ===== src/Metrics/Window/Eviction.antt =====
-- What `evict_stale` removes.
use mathlib.Core.Path.{subst}
use port_sentinel.Base.Dict.{Dict, get, IsDict, Absent, get_of_Absent}
use port_sentinel.Base.Sort.{IsSorted}
use port_sentinel.Base.Time.{seconds}
use port_sentinel.Base.{
  ℕ, ◌+◌, ◌≤◌, ◌≡◌, refl, ◌∙◌, List, [], ◌∷◌, Bool, true, nat_keys, ◌==◌, or_else, length, keep,
  keep_of_All, arith, Bool-cases, inl, inr, if◌then◌else◌, leb, All,
}
use port_sentinel.Domain.Snapshot.{PortSnapshot}
use port_sentinel.Metrics.Window.{
  SlidingWindowCache, pop_stale, keep_port, evict_ports, evict_stale, total_entries, sum_lengths,
}
use port_sentinel.Metrics.Window.History.{entries}

module _ {F : Type 0} (now max_age : ℕ) where
  -- `s.timestamp >= now - max_age`
  abbrev pub is_fresh : PortSnapshot F → Bool
  is_fresh s = leb now (s.timestamp + seconds max_age)

  length-pop_stale :
      (xs : List (PortSnapshot F))
      → length (pop_stale now max_age xs).0 + (pop_stale now max_age xs).1 ≡ length xs
  unfolding pop_stale
  length-pop_stale [] = omega arith
  length-pop_stale (s ∷ xs) = ground (arith, length-pop_stale xs)

  All-is_fresh :
      (t : ℕ) (xs : List (PortSnapshot F))
      → now ≤ t + seconds max_age
      → All (λ s. t ≤ s.timestamp) xs
      → All (λ s. is_fresh s ≡ true) xs
  All-is_fresh t [] h a = tt
  All-is_fresh t (s ∷ xs) h a = (ground (arith, a.0), All-is_fresh t xs h a.1)

  -- On a deque in the order of time the loop is a filter.
  pop_stale-keep :
      (xs : List (PortSnapshot F))
      → IsSorted (λ s. s.timestamp) xs
      → (pop_stale now max_age xs).0 ≡ keep is_fresh xs
  unfolding pop_stale keep
  pop_stale-keep [] h = refl
  pop_stale-keep (s ∷ xs) h = elim (Bool-cases (is_fresh s)) [
    | inl e ↦
        ground (arith, keep_of_All is_fresh xs (All-is_fresh s.timestamp xs (ground arith) h.0))
    | inr e ↦ ground (arith, pop_stale-keep xs h.1)
  ]

  sum-keep_port :
      (port : ℕ) (left : List (PortSnapshot F)) (rest : Dict ℕ (List (PortSnapshot F)))
      → sum_lengths (keep_port port left rest) ≡ length left + sum_lengths rest
  unfolding sum_lengths
  sum-keep_port port [] rest = omega arith
  sum-keep_port port (s ∷ left) rest = refl

  sum-evict_ports :
      (d : Dict ℕ (List (PortSnapshot F)))
      → sum_lengths (evict_ports now max_age d).0 + (evict_ports now max_age d).1 ≡ sum_lengths d
  unfolding evict_ports sum_lengths
  sum-evict_ports [] = omega arith
  sum-evict_ports ((port, xs) ∷ d) = omega (
    arith,
    length-pop_stale xs,
    sum-evict_ports d,
    sum-keep_port port (pop_stale now max_age xs).0 (evict_ports now max_age d).0,
  )

  pub Absent-evict_ports :
      (port : ℕ) (d : Dict ℕ (List (PortSnapshot F)))
      → Absent port d
      → Absent port (evict_ports now max_age d).0
  unfolding evict_ports
  Absent-evict_ports port [] h = tt
  Absent-evict_ports port ((q, xs) ∷ d) h =
      Absent-keep_port (pop_stale now max_age xs).0 (Absent-evict_ports port d h.1)
    where
      Absent-keep_port :
          (left : List (PortSnapshot F))
          → Absent port (evict_ports now max_age d).0
          → Absent port (keep_port q left (evict_ports now max_age d).0)
      Absent-keep_port [] a = a
      Absent-keep_port (s ∷ left) a = (h.0, a)

  get-keep_port :
      (port q : ℕ) (left : List (PortSnapshot F)) (rest : Dict ℕ (List (PortSnapshot F)))
      → Absent q rest
      → or_else (get (keep_port q left rest) port) []
        ≡ (if q == port then left else or_else (get rest port) [])
  unfolding get
  get-keep_port port q [] rest a = elim (Bool-cases (q == port)) [
    | inl e ↦
        let same : q ≡ port = (nat_keys.same_iff q port).0 e in
        rw (e, get_of_Absent rest port (subst (λ k. Absent k rest) same a))
    | inr e ↦ rw e
  ]
  get-keep_port port q (s ∷ left) rest a = ground arith

  entries-evict_ports :
      (d : Dict ℕ (List (PortSnapshot F))) (port : ℕ)
      → IsDict d
      → or_else (get (evict_ports now max_age d).0 port) []
        ≡ (pop_stale now max_age (or_else (get d port) [])).0
  unfolding evict_ports get pop_stale
  entries-evict_ports [] port h = refl
  entries-evict_ports ((q, xs) ∷ d) port h =
      get-keep_port port q (pop_stale now max_age xs).0 (evict_ports now max_age d).0
        (Absent-evict_ports q d h.0)
      ∙ ground (arith, entries-evict_ports d port h.1)

  -- Eviction returns the number of entries that it removes, and a port whose history is in the
  -- order of time keeps exactly the entries that are no older than the maximal age.
  pub evict_stale_correct :
      (w : SlidingWindowCache F) (port : ℕ)
      → IsDict w.cache
      → IsSorted (λ s. s.timestamp) (entries w port)
      → ((evict_stale w max_age now).0 + total_entries (evict_stale w max_age now).1
          ≡ total_entries w)
        × (entries (evict_stale w max_age now).1 port ≡ keep is_fresh (entries w port))
  unfolding evict_stale total_entries
  evict_stale_correct w port d s = (
    omega (arith, sum-evict_ports w.cache),
    entries-evict_ports w.cache port d ∙ pop_stale-keep (entries w port) s,
  )
