-- ===== src/Database/Keyed.antt =====
-- Tables with one row for each key.
use port_sentinel.Base.Unique.{filter_some}
use mathlib.Core.Path.{subst}
use mathlib.Core.Option
use port_sentinel.Database.Engine.{first, edit_first}
use port_sentinel.Base.{
  List, Option, Bool, HasEq, ◌==◌, All, ◌∷◌, keep, ◌++◌, ◌≡◌, [], Bool-cases, if◌then◌else◌, length,
  none, not, ◌≢◌, All-append, arith, inl, ◌≤◌, some, same_ne, refl, All-keep, inr, sym, ◌∙◌, ap,
}

abbrev pub or_new : {R : Type 0} → Option R → Option R → Option R
or_new none new = new
or_new (some r) new = some r

module _ {K R : Type 0} ⦃e : HasEq K⦄ (key : R → K) where
  abbrev pub with_key : K → R → Bool
  with_key k r = key r == k

  -- No two rows have one key.
  abbrev pub IsKeyed : List R → Type 0
  IsKeyed [] = Unit
  IsKeyed (r ∷ rest) = All (λ s. key s ≢ key r) rest × IsKeyed rest

  pub first-append :
      (k : K) (rs : List R) (new : R)
      → first (with_key k) (rs ++ new ∷ [])
        ≡ or_new (first (with_key k) rs) (if key new == k then some new else none)
  first-append k [] new = refl
  first-append k (r ∷ rest) new = ground (arith, first-append k rest new)

  pub first-edit_first :
      (k : K) (change : R → R) (j : K) (rs : List R)
      → ((r : R) → key (change r) ≡ key r)
      → first (with_key j) (edit_first (with_key k) change rs)
        ≡ (if k == j then Option.map change (first (with_key j) rs) else first (with_key j) rs)
  first-edit_first k change j [] same = ground arith
  first-edit_first k change j (r ∷ rest) same = ground (
    arith,
    same r,
    e.same_iff k j,
    e.same_iff (key r) k,
    e.same_iff (key r) j,
    e.same_iff (key (change r)) j,
    first-edit_first k change j rest same,
  )

  All-edit_first :
      (P : K → Type 0) (p : R → Bool) (change : R → R) (rs : List R)
      → ((r : R) → key (change r) ≡ key r)
      → All (λ r. P (key r)) rs
      → All (λ r. P (key r)) (edit_first p change rs)
  All-edit_first P p change [] same h = tt
  All-edit_first P p change (r ∷ rest) same h = elim (Bool-cases (p r)) [
    | inl y ↦ rw y (subst P (sym (same r)) h.0, h.1)
    | inr n ↦ rw n (h.0, All-edit_first P p change rest same h.1)
  ]

  pub edit_first-IsKeyed :
      (p : R → Bool) (change : R → R) (rs : List R)
      → ((r : R) → key (change r) ≡ key r)
      → IsKeyed rs
      → IsKeyed (edit_first p change rs)
  edit_first-IsKeyed p change [] same h = tt
  edit_first-IsKeyed p change (r ∷ rest) same h = elim (Bool-cases (p r)) [
    | inl y ↦ rw y (subst (λ k. All (λ s. key s ≢ k) rest) (sym (same r)) h.0, h.1)
    | inr n ↦ rw n (
      All-edit_first (λ k. k ≢ key r) p change rest same h.0,
      edit_first-IsKeyed p change rest same h.1,
    )
  ]

  pub absent_of_first :
      (k : K) (rs : List R) → first (with_key k) rs ≡ none → All (λ s. key s ≢ k) rs
  absent_of_first k [] h = tt
  absent_of_first k (r ∷ rest) h = elim (Bool-cases (key r == k)) [
    | inl y ↦ absurd (ground arith)
    | inr n ↦
        let ne : key r ≢ k = λ q. ground (arith, e.same_iff (key r) k) in
        (ne, absent_of_first k rest (rw n at h))
  ]

  pub append-IsKeyed :
      (rs : List R) (new : R)
      → IsKeyed rs
      → All (λ s. key s ≢ key new) rs
      → IsKeyed (rs ++ new ∷ [])
  append-IsKeyed [] new h a = (tt, tt)
  append-IsKeyed (r ∷ rest) new h a = (
    All-append (λ s. key s ≢ key r) rest (new ∷ []) h.0 ((λ q. a.0 (sym q)), tt),
    append-IsKeyed rest new h.1 a.1,
  )

  pub keep-IsKeyed : (p : R → Bool) (rs : List R) → IsKeyed rs → IsKeyed (keep p rs)
  unfolding keep
  keep-IsKeyed p [] h = tt
  keep-IsKeyed p (r ∷ rest) h = elim (Bool-cases (p r)) [
    | inl y ↦ rw y (All-keep (λ s. key s ≢ key r) p rest h.0, keep-IsKeyed p rest h.1)
    | inr n ↦ rw n (keep-IsKeyed p rest h.1)
  ]

  pub first_of_absent :
      (k : K) (rs : List R) → All (λ s. key s ≢ k) rs → first (with_key k) rs ≡ none
  first_of_absent k [] a = refl
  first_of_absent k (r ∷ rest) a = rw (same_ne (key r) k a.0) (first_of_absent k rest a.1)

  -- A row that is found has the key.
  pub key_of_first : (k : K) (rs : List R) (r : R) → first (with_key k) rs ≡ some r → key r ≡ k
  key_of_first k [] r h = cc
  key_of_first k (x ∷ rest) r h = elim (Bool-cases (key x == k)) [
    | inl y ↦ let same : x ≡ r = ground arith in ap key (sym same) ∙ (e.same_iff (key x) k).0 y
    | inr n ↦ key_of_first k rest r (rw n at h)
  ]

  -- What a query finds after the rows with a key are deleted.
  pub first-delete :
      (k j : K) (rs : List R)
      → first (with_key j) (keep (λ r. not (with_key k r)) rs)
        ≡ (if k == j then none else first (with_key j) rs)
  unfolding keep
  first-delete k j [] = ground arith
  first-delete k j (r ∷ rest) =
      ground
        (arith, e.same_iff k j, e.same_iff (key r) k, e.same_iff (key r) j, first-delete k j rest)

  keep_of_absent : (k : K) (rs : List R) → All (λ s. key s ≢ k) rs → keep (with_key k) rs ≡ []
  unfolding keep
  keep_of_absent k [] a = refl
  keep_of_absent k (r ∷ rest) a = rw (same_ne (key r) k a.0) (keep_of_absent k rest a.1)

  -- A key selects one row at most.
  pub length-keep-key : (k : K) (rs : List R) → IsKeyed rs → length (keep (with_key k) rs) ≤ 1
  unfolding keep
  length-keep-key k [] h = omega arith
  length-keep-key k (r ∷ rest) h = elim (Bool-cases (key r == k)) [
    | inl y ↦
        let same : key r ≡ k = (e.same_iff (key r) k).0 y in
        let none_left : keep (with_key k) rest ≡ [] =
          keep_of_absent k rest (subst (λ j. All (λ s. key s ≢ j) rest) same h.0) in
        rw (y, none_left) (omega arith)
    | inr n ↦ rw n (length-keep-key k rest h.1)
  ]

-- The row of a key among those that pass a test.
pub first-keep_test :
    {K R : Type 0} ⦃e : HasEq K⦄ (key : R → K) (p : R → Bool) (k : K) (rs : List R)
    → IsKeyed key rs
    → first (with_key key k) (keep p rs) ≡ filter_some p (first (with_key key k) rs)
unfolding keep
first-keep_test key p k [] h = refl
first-keep_test ⦃e⦄ key p k (r ∷ rest) h = elim (Bool-cases (key r == k)) [
  | inl y ↦
      let same : key r ≡ k = (e.same_iff (key r) k).0 y in
      let gone = first_of_absent key k rest (subst (λ j. All (λ s. key s ≢ j) rest) same h.0) in
      let left = first-keep_test key p k rest h.1 in ground (arith, left, gone)
  | inr n ↦ let left = first-keep_test key p k rest h.1 in ground (arith, left)
]

pub first-keep {ℓ} : {R : Type ℓ} (p : R → Bool) (rs : List R) → first p (keep p rs) ≡ first p rs
unfolding keep
first-keep p [] = refl
first-keep p (r ∷ rest) = elim (Bool-cases (p r)) [
  | inl y ↦ rw y (rw y refl)
  | inr n ↦ rw n (first-keep p rest)
]

pub or_new-none : {R : Type 0} (o : Option R) → or_new o none ≡ o
or_new-none none = refl
or_new-none (some r) = refl
