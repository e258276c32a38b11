-- ===== src/Metrics/Window.antt =====
-- `SlidingWindowCache`: a bounded history of snapshots per port.
pub mod History
pub mod Eviction
pub mod Valid
use port_sentinel.Base.Dict.{Dict, get, put, keys}
use port_sentinel.Base.Time.{seconds}
use port_sentinel.Base.{
  ℕ, zero, suc, ◌+◌, ◌-◌, Bool, List, [], ◌∷◌, ◌++◌, Option, none, some, leb, ltb, if◌then◌else◌,
  nat_keys, or_else, length, drop, keep,
}
use port_sentinel.Domain.Snapshot.{PortSnapshot}

abbrev pub max_window_entries : ℕ
max_window_entries = 86_400

-- `deque.append` on a deque with `maxlen`: what does not fit is dropped on the left.
unfoldable pub push {ℓ} : {A : Type ℓ} → ℕ → List A → A → List A
push maxlen entries x = drop (suc (length entries) - maxlen) (entries ++ (x ∷ []))

pub record SlidingWindowCache (F : Type 0) : Type 0 where
  pub max_entries : ℕ
  pub cache : Dict ℕ (List (PortSnapshot F))

abbrev pub new_window : {F : Type 0} → ℕ → SlidingWindowCache F
new_window max_entries = record { max_entries = max_entries; cache = [] }

module _ {F : Type 0} where
  unfoldable pub add : SlidingWindowCache F → PortSnapshot F → SlidingWindowCache F
  add w snapshot = record w {
    cache =
        put w.cache snapshot.port
          (push w.max_entries (or_else (get w.cache snapshot.port) []) snapshot);
  }

  -- `[s for s in entries if s.timestamp >= now - seconds]`, or all entries
  unfoldable pub select : Option ℕ → ℕ → List (PortSnapshot F) → List (PortSnapshot F)
  select none now entries = entries
  select (some n) now entries = keep (λ s. leb now (s.timestamp + seconds n)) entries

  unfoldable pub get_history : SlidingWindowCache F → ℕ → Option ℕ → ℕ → List (PortSnapshot F)
  get_history w port span now = elim (get w.cache port) [
    | none ↦ []
    | some entries ↦ select span now entries
  ]

  -- The `while` loop of `evict_stale` on one deque: what is left, and how many went.
  unfoldable pub pop_stale : ℕ → ℕ → List (PortSnapshot F) → List (PortSnapshot F) × ℕ
  pop_stale now max_age [] = ([], 0)
  pop_stale now max_age (s ∷ rest) =
      let (left, n) = pop_stale now max_age rest in
      if ltb (s.timestamp + seconds max_age) now then (left, suc n) else (s ∷ rest, 0)

  abbrev pub keep_port :
      ℕ → List (PortSnapshot F) → Dict ℕ (List (PortSnapshot F)) → Dict ℕ (List (PortSnapshot F))
  keep_port port [] rest = rest
  keep_port port (s ∷ left) rest = (port, s ∷ left) ∷ rest

  -- The `for` loop over the ports; a port with nothing left is deleted.
  unfoldable pub evict_ports :
      ℕ → ℕ → Dict ℕ (List (PortSnapshot F)) → Dict ℕ (List (PortSnapshot F)) × ℕ
  evict_ports now max_age [] = ([], 0)
  evict_ports now max_age ((port, entries) ∷ ports) =
      let (left, n) = pop_stale now max_age entries in
      let (rest, k) = evict_ports now max_age ports in (keep_port port left rest, n + k)

  unfoldable pub evict_stale : SlidingWindowCache F → ℕ → ℕ → ℕ × SlidingWindowCache F
  evict_stale w max_age now =
      let (cache, evicted) = evict_ports now max_age w.cache in
      (evicted, record w { cache = cache })

  unfoldable pub port_count : SlidingWindowCache F → ℕ
  port_count w = length w.cache

  unfoldable pub sum_lengths : Dict ℕ (List (PortSnapshot F)) → ℕ
  sum_lengths [] = 0
  sum_lengths ((port, entries) ∷ ports) = length entries + sum_lengths ports

  unfoldable pub total_entries : SlidingWindowCache F → ℕ
  total_entries w = sum_lengths w.cache

  unfoldable pub clear : SlidingWindowCache F → SlidingWindowCache F
  clear w = record w { cache = [] }
