-- ===== src/Metrics/Window/Valid.antt =====
-- The invariant of the sliding window.
use port_sentinel.Base.Time.{seconds}
use port_sentinel.Base.Dict.{Dict, get, IsDict, Absent, put-IsDict, All-get, All-put}
use port_sentinel.Base.{
  ℕ, suc, ◌+◌, ◌≤◌, ◌<◌, ◌≡◌, refl, List, [], ◌∷◌, ◌++◌, nat_keys, or_else, length, arith, All,
  All-append, All-drop, length-append, length-drop, inl, inr, Option-cases, ltb, ◌-◌, Bool-cases,
}
use port_sentinel.Domain.Snapshot.{PortSnapshot}
use port_sentinel.Metrics.Window.{
  SlidingWindowCache, new_window, push, add, pop_stale, keep_port, evict_ports, evict_stale, clear,
}
use port_sentinel.Metrics.Window.Eviction.{Absent-evict_ports}

-- A port's deque is not empty, fits, and holds snapshots of the port.
abbrev pub IsGood : {F : Type 0} → ℕ → ℕ × List (PortSnapshot F) → Type 0
IsGood max_entries (port, xs) =
    (0 < length xs) × (length xs ≤ max_entries) × All (λ s. s.port ≡ port) xs

pub record IsValid {F : Type 0} (w : SlidingWindowCache F) : Type 0 where
  pub positive : 0 < w.max_entries
  pub distinct : IsDict w.cache
  pub good : All (IsGood w.max_entries) w.cache

-- The calls that change a window; `evict_stale` is given the maximal age and the time.
pub data Call (F : Type 0) : Type 0 where
  add_call : PortSnapshot F → Call F
  evict_call : ℕ → ℕ → Call F
  clear_call : Call F

abbrev pub perform : {F : Type 0} → SlidingWindowCache F → Call F → SlidingWindowCache F
perform w (add_call s) = add w s
perform w (evict_call max_age now) = (evict_stale w max_age now).1
perform w clear_call = clear w

abbrev pub perform_all : {F : Type 0} → SlidingWindowCache F → List (Call F) → SlidingWindowCache F
perform_all w [] = w
perform_all w (call ∷ calls) = perform_all (perform w call) calls

module _ {F : Type 0} where
  entries-IsGood :
      (w : SlidingWindowCache F) (port : ℕ)
      → All (IsGood w.max_entries) w.cache
      → (length (or_else (get w.cache port) []) ≤ w.max_entries)
        × All (λ s. s.port ≡ port) (or_else (get w.cache port) [])
  entries-IsGood w port h = elim (Option-cases (get w.cache port)) [
    | inl e ↦ rw e (omega arith, tt)
    | inr (xs, e) ↦
        let g : IsGood w.max_entries (port, xs) =
          All-get (IsGood w.max_entries) w.cache port xs h e in
        rw e (g.1, g.2)
  ]

  push-IsGood :
      (m : ℕ) (xs : List (PortSnapshot F)) (s : PortSnapshot F)
      → 0 < m
      → length xs ≤ m
      → All (λ x. x.port ≡ s.port) xs
      → IsGood m (s.port, push m xs s)
  unfolding push
  push-IsGood m xs s pos h a =
      let n = length-drop (suc (length xs) - m) (xs ++ (s ∷ [])) in
      let k = length-append xs (s ∷ []) in
      (
        omega (arith, n, k),
        omega (arith, n, k),
        All-drop (λ x. x.port ≡ s.port) (suc (length xs) - m) (xs ++ (s ∷ []))
            (All-append (λ x. x.port ≡ s.port) xs (s ∷ []) a (refl, tt)),
      )

  pub add-IsValid : (w : SlidingWindowCache F) (s : PortSnapshot F) → IsValid w → IsValid (add w s)
  unfolding add
  add-IsValid w s v =
      let old = or_else (get w.cache s.port) [] in
      let g = entries-IsGood w s.port v.good in
      record {
        positive = v.positive;
        distinct = put-IsDict w.cache s.port (push w.max_entries old s) v.distinct;
        good =
            All-put (IsGood w.max_entries) w.cache s.port (push w.max_entries old s)
              (push-IsGood w.max_entries old s v.positive g.0 g.1) v.good;
      }

  pop_stale-IsGood :
      (now max_age m port : ℕ) (xs : List (PortSnapshot F))
      → length xs ≤ m
      → All (λ s. s.port ≡ port) xs
      → (length (pop_stale now max_age xs).0 ≤ m)
        × All (λ s. s.port ≡ port) (pop_stale now max_age xs).0
  unfolding pop_stale
  pop_stale-IsGood now max_age m port [] h a = (h, tt)
  pop_stale-IsGood now max_age m port (s ∷ xs) h a =
      elim (Bool-cases (ltb (s.timestamp + seconds max_age) now)) [
        | inl e ↦ rw e (pop_stale-IsGood now max_age m port xs (omega arith) a.1)
        | inr e ↦ rw e (h, a)
      ]

  keep_port-IsGood :
      (m port : ℕ) (left : List (PortSnapshot F)) (rest : Dict ℕ (List (PortSnapshot F)))
      → (length left ≤ m) × All (λ s. s.port ≡ port) left
      → All (IsGood m) rest
      → All (IsGood m) (keep_port port left rest)
  keep_port-IsGood m port [] rest l r = r
  keep_port-IsGood m port (s ∷ left) rest l r = ((omega arith, l.0, l.1), r)

  keep_port-IsDict :
      (port : ℕ) (left : List (PortSnapshot F)) (rest : Dict ℕ (List (PortSnapshot F)))
      → Absent port rest
      → IsDict rest
      → IsDict (keep_port port left rest)
  keep_port-IsDict port [] rest a d = d
  keep_port-IsDict port (s ∷ left) rest a d = (a, d)

  evict_ports-IsValid :
      (now max_age m : ℕ) (d : Dict ℕ (List (PortSnapshot F)))
      → IsDict d
      → All (IsGood m) d
      → IsDict (evict_ports now max_age d).0 × All (IsGood m) (evict_ports now max_age d).0
  unfolding evict_ports
  evict_ports-IsValid now max_age m [] d g = (tt, tt)
  evict_ports-IsValid now max_age m ((port, xs) ∷ d) i g =
      let (rest_dict, rest_good) = evict_ports-IsValid now max_age m d i.1 g.1 in
      let left = (pop_stale now max_age xs).0 in
      let rest = (evict_ports now max_age d).0 in
      (
        keep_port-IsDict port left rest (Absent-evict_ports now max_age port d i.0) rest_dict,
        keep_port-IsGood m port left rest (pop_stale-IsGood now max_age m port xs g.0.1 g.0.2)
            rest_good,
      )

  perform-IsValid :
      (w : SlidingWindowCache F) (call : Call F) → IsValid w → IsValid (perform w call)
  unfolding evict_stale clear
  perform-IsValid w (add_call s) h = add-IsValid w s h
  perform-IsValid w (evict_call max_age now) h =
      let (d, g) = evict_ports-IsValid now max_age w.max_entries w.cache h.distinct h.good in
      record { positive = h.positive; distinct = d; good = g }
  perform-IsValid w clear_call h = record { positive = h.positive; distinct = tt; good = tt }

  perform_all-keeps :
      (w : SlidingWindowCache F) (calls : List (Call F)) → IsValid w → IsValid (perform_all w calls)
  perform_all-keeps w [] h = h
  perform_all-keeps w (call ∷ calls) h =
      perform_all-keeps (perform w call) calls (perform-IsValid w call h)

  -- A window made with room for an entry, after any calls of `add`, `evict_stale` and `clear`, has
  -- one deque for each port that it tracks, never an empty one, none longer than `max_entries`, and
  -- each holds snapshots of its own port alone.
  pub perform_all-IsValid :
      (max_entries : ℕ) (calls : List (Call F))
      → 0 < max_entries
      → IsValid (perform_all (new_window max_entries) calls)
  perform_all-IsValid max_entries calls pos =
      perform_all-keeps (new_window max_entries) calls
        (record { positive = pos; distinct = tt; good = tt })
