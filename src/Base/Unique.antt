-- ===== src/Base/Unique.antt =====
-- Lists of values that carry keys in ℕ: sorted, filtered and searched by key.
use port_sentinel.Base.{refl}
use native.Mathlib.Omega.{arith}
use mathlib.Core.Path.{◌≡◌, ◌∙◌, sym, subst}
use mathlib.Core.Option.{Option, none, some}
use mathlib.Core.Logic.{◌≢◌, inl, inr}
use mathlib.Core.Bool.{Bool}
use Prim.Native.Nat.{ℕ, ◌≤◌}
use mathlib.Core.List.{List, [], ◌∷◌}
use port_sentinel.Base.Tests.{leb, Bool-cases, if◌then◌else◌}
use port_sentinel.Base.Lists.{All, keep, All-keep}
use port_sentinel.Base.Equality.{◌==◌, nat_keys}
use port_sentinel.Base.Dict.{find_by}
use port_sentinel.Base.Sort.{insert, sorted, IsSorted, All-insert}

-- The option, if what it holds passes the test.
abbrev pub filter_some {ℓ} : {A : Type ℓ} → (A → Bool) → Option A → Option A
filter_some p none = none
filter_some p (some a) = if p a then some a else none

module _ {A : Type 0} (key : A → ℕ) where
  -- No two elements have one key.
  abbrev pub Unique : List A → Type 0
  Unique [] = Unit
  Unique (x ∷ xs) = All (λ y. key y ≢ key x) xs × Unique xs

  pub insert-Unique :
      (x : A) (xs : List A) → All (λ y. key y ≢ key x) xs → Unique xs → Unique (insert key x xs)
  unfolding insert
  insert-Unique x [] a u = (tt, tt)
  insert-Unique x (y ∷ ys) a u = elim (Bool-cases (leb (key x) (key y))) [
    | inl e ↦ rw e (a, u)
    | inr e ↦ rw e (
      All-insert key (λ z. key z ≢ key y) x ys (λ p. a.0 (sym p)) u.0,
      insert-Unique x ys a.1 u.1,
    )
  ]

  pub All-sorted : (P : A → Type 0) (xs : List A) → All P xs → All P (sorted key xs)
  unfolding sorted
  All-sorted P [] h = tt
  All-sorted P (x ∷ xs) h = All-insert key P x (sorted key xs) h.0 (All-sorted P xs h.1)

  pub sorted-Unique : (xs : List A) → Unique xs → Unique (sorted key xs)
  unfolding sorted
  sorted-Unique [] u = tt
  sorted-Unique (x ∷ xs) u =
      insert-Unique x (sorted key xs) (All-sorted (λ y. key y ≢ key x) xs u.0)
        (sorted-Unique xs u.1)

  pub find_by-insert :
      (k : ℕ) (x : A) (xs : List A)
      → find_by key k (insert key x xs) ≡ (if key x == k then some x else find_by key k xs)
  unfolding insert find_by
  find_by-insert k x [] = refl
  find_by-insert k x (y ∷ ys) = ground (arith, find_by-insert k x ys)

  pub find_by-sorted : (k : ℕ) (xs : List A) → find_by key k (sorted key xs) ≡ find_by key k xs
  unfolding sorted find_by
  find_by-sorted k [] = refl
  find_by-sorted k (x ∷ xs) = find_by-insert k x (sorted key xs) ∙ rw (find_by-sorted k xs)

  pub find_by_absent : (k : ℕ) (xs : List A) → All (λ y. key y ≢ k) xs → find_by key k xs ≡ none
  unfolding find_by
  find_by_absent k [] a = refl
  find_by_absent k (x ∷ xs) a = ground (arith, a.0, find_by_absent k xs a.1)

  pub find_by-keep :
      (p : A → Bool) (k : ℕ) (xs : List A)
      → Unique xs
      → find_by key k (keep p xs) ≡ filter_some p (find_by key k xs)
  unfolding find_by keep
  find_by-keep p k [] u = refl
  find_by-keep p k (x ∷ xs) u = elim (Bool-cases (key x == k)) [
    | inl e ↦
        let same : key x ≡ k = ground arith in
        let gone : find_by key k xs ≡ none =
          find_by_absent k xs (subst (λ j. All (λ y. key y ≢ j) xs) same u.0) in
        ground (arith, find_by-keep p k xs u.1)
    | inr e ↦ ground (arith, find_by-keep p k xs u.1)
  ]

  pub keep-Unique : (p : A → Bool) (xs : List A) → Unique xs → Unique (keep p xs)
  unfolding keep
  keep-Unique p [] u = tt
  keep-Unique p (x ∷ xs) u = elim (Bool-cases (p x)) [
    | inl e ↦ rw e (All-keep (λ y. key y ≢ key x) p xs u.0, keep-Unique p xs u.1)
    | inr e ↦ rw e (keep-Unique p xs u.1)
  ]

  pub IsSorted-keep : (p : A → Bool) (xs : List A) → IsSorted key xs → IsSorted key (keep p xs)
  unfolding keep
  IsSorted-keep p [] s = tt
  IsSorted-keep p (x ∷ xs) s = elim (Bool-cases (p x)) [
    | inl e ↦ rw e (All-keep (λ y. key x ≤ key y) p xs s.0, IsSorted-keep p xs s.1)
    | inr e ↦ rw e (IsSorted-keep p xs s.1)
  ]
