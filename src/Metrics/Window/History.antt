-- ===== src/Metrics/Window/History.antt =====
-- The sliding window refines the list of all snapshots added for a port.
use port_sentinel.Base.Dict.{get, get-put}
use port_sentinel.Base.{
  ℕ, suc, ◌-◌, ◌≡◌, refl, sym, ap, ◌∙◌, List, [], ◌∷◌, ◌++◌, Option, none, some, nat_keys, ◌==◌,
  or_else, length, drop, keep, length-drop, drop-append, drop-drop, arith, Bool-cases, inl, inr,
  if◌then◌else◌, append_assoc, append-nil, length-append, drop-nil,
}
use port_sentinel.Domain.Snapshot.{PortSnapshot}
use port_sentinel.Metrics.Window.{SlidingWindowCache, new_window, push, add, get_history, select}

module _ {ℓ} {A : Type ℓ} where
  -- The last `n` elements.
  abbrev pub last_n : ℕ → List A → List A
  last_n n xs = drop (length xs - n) xs

  push-last_n : (n : ℕ) (xs : List A) (x : A) → push n (last_n n xs) x ≡ last_n n (xs ++ (x ∷ []))
  unfolding push
  push-last_n n xs x =
      let k : ℕ = length xs - n in
      ap (drop (suc (length (drop k xs)) - n)) (sym (drop-append k xs (x ∷ []) (omega arith)))
      ∙ drop-drop (suc (length (drop k xs)) - n) k (xs ++ (x ∷ []))
      ∙ ap (λ m. drop m (xs ++ (x ∷ [])))
          (omega (arith, length-drop k xs, length-append xs (x ∷ [])))

module _ {F : Type 0} where
  abbrev pub entries : SlidingWindowCache F → ℕ → List (PortSnapshot F)
  entries w port = or_else (get w.cache port) []

  abbrev pub add_all : SlidingWindowCache F → List (PortSnapshot F) → SlidingWindowCache F
  add_all w [] = w
  add_all w (s ∷ ss) = add_all (add w s) ss

  abbrev pub of_port : ℕ → List (PortSnapshot F) → List (PortSnapshot F)
  of_port port = keep (λ s. s.port == port)

  pub entries-add :
      (w : SlidingWindowCache F) (s : PortSnapshot F) (port : ℕ)
      → entries (add w s) port
        ≡ (if s.port == port then push w.max_entries (entries w port) s else entries w port)
  unfolding add
  entries-add w s port = elim (Bool-cases (s.port == port)) [
    | inl e ↦
        rw (get-put, e) (ap (λ p. push w.max_entries (entries w p) s) ((nat_keys.same_iff _ _).0 e))
    | inr e ↦ rw (get-put, e)
  ]

  max_entries-add :
      (w : SlidingWindowCache F) (s : PortSnapshot F) → (add w s).max_entries ≡ w.max_entries
  unfolding add
  max_entries-add w s = refl

  entries-add_all :
      (w : SlidingWindowCache F) (ss h : List (PortSnapshot F)) (port : ℕ)
      → entries w port ≡ last_n w.max_entries h
      → entries (add_all w ss) port ≡ last_n w.max_entries (h ++ of_port port ss)
  unfolding keep
  entries-add_all w [] h port e = rw append-nil e
  entries-add_all w (s ∷ ss) h port e = elim (Bool-cases (s.port == port)) [
    | inl b ↦
        entries-add_all (add w s) ss (h ++ (s ∷ [])) port
          (entries-add w s port ∙ rw (b, e, max_entries-add) (push-last_n w.max_entries h s))
        ∙ rw (max_entries-add, b)
            (ap (last_n w.max_entries) (append_assoc h (s ∷ []) (of_port port ss)))
    | inr b ↦
        entries-add_all (add w s) ss h port (entries-add w s port ∙ rw (b, max_entries-add) e)
        ∙ rw (max_entries-add, b)
  ]

  get_history-entries :
      (w : SlidingWindowCache F) (port : ℕ) (span : Option ℕ) (now : ℕ)
      → get_history w port span now ≡ select span now (entries w port)
  unfolding get_history select keep
  get_history-entries w port none now = ground arith
  get_history-entries w port (some n) now = ground arith

  -- The history of a port is the last `max_entries` of the snapshots added for it, in the order in
  -- which they were added, less those older than the span if one is given; snapshots of other
  -- ports have no part in it.
  pub get_history-add_all :
      (max_entries : ℕ) (ss : List (PortSnapshot F)) (port : ℕ) (span : Option ℕ) (now : ℕ)
      → get_history (add_all (new_window max_entries) ss) port span now
        ≡ select span now (last_n max_entries (of_port port ss))
  unfolding get
  get_history-add_all max_entries ss port span now =
      get_history-entries (add_all (new_window max_entries) ss) port span now
      ∙ ap (select span now)
          (entries-add_all (new_window max_entries) ss [] port (sym (drop-nil (0 - max_entries))))
