-- ===== src/Tests/Lists.antt =====
-- A database engine on lists, for the tests.
use port_sentinel.Base.Sort.{IsSorted}
use port_sentinel.Base.{
  ℕ, Bool, List, length, ◌∷◌, ◌≡◌, ◌+◌, false, [], if◌then◌else◌, keep, true, ◌≤◌, Bool-cases, ◌∙◌,
  refl, inl, inr, ◌++◌, ◌<◌, arith, All, max, leb, ◌≢◌, not, suc,
}
use port_sentinel.Database.Engine.{Engine, edit_first, IsDescending}

nil_of_length : {R : Type 0} (rs : List R) → length rs ≤ 0 → rs ≡ []
nil_of_length [] h = refl
nil_of_length (r ∷ rs) h = absurd (omega arith)

length-keep_cons :
    {R : Type 0} (p : R → Bool) (r : R) (rs : List R)
    → length (keep p (r ∷ rs)) ≡ (if p r then 1 else 0) + length (keep p rs)
unfolding keep
length-keep_cons p r rs = ground arith

module _ {R : Type 0} (key : R → ℕ) (before : ℕ → ℕ → Bool) where
  abbrev place : R → List R → List R
  place r [] = r ∷ []
  place r (s ∷ rest) = if before (key r) (key s) then r ∷ s ∷ rest else s ∷ place r rest

  abbrev pub arrange : List R → List R
  arrange [] = []
  arrange (r ∷ rest) = place r (arrange rest)

  keep-place_skip :
      (p : R → Bool) (r : R) (rs : List R) → p r ≡ false → keep p (place r rs) ≡ keep p rs
  unfolding keep
  keep-place_skip p r [] e = rw e refl
  keep-place_skip p r (s ∷ rest) e = elim (Bool-cases (before (key r) (key s))) [
    | inl b ↦ rw (b, e) refl
    | inr b ↦ rw (b, keep-place_skip p r rest e) refl
  ]

  keep-place_only :
      (p : R → Bool) (r : R) (rs : List R)
      → p r ≡ true
      → length (keep p rs) ≤ 0
      → keep p (place r rs) ≡ r ∷ []
  unfolding keep
  keep-place_only p r [] e h = rw e refl
  keep-place_only p r (s ∷ rest) e h = elim (Bool-cases (p s)) [
    | inl y ↦ absurd (ground (arith, length-keep_cons p s rest))
    | inr n ↦
        let few : length (keep p rest) ≤ 0 = ground (arith, length-keep_cons p s rest) in
        let h' = nil_of_length (keep p rest) few in
        elim (Bool-cases (before (key r) (key s))) [
          | inl b ↦ rw (b, e, n, h') refl
          | inr b ↦ rw (b, n) (keep-place_only p r rest e few)
        ]
  ]

  length-keep-place :
      (p : R → Bool) (r : R) (rs : List R) → length (keep p (place r rs)) ≡ length (keep p (r ∷ rs))
  length-keep-place p r [] = refl
  length-keep-place p r (s ∷ rest) = elim (Bool-cases (before (key r) (key s))) [
    | inl b ↦ rw b refl
    | inr b ↦ rw b (
        omega (
          arith,
          length-keep-place p r rest,
          length-keep_cons p r rest,
          length-keep_cons p s rest,
          length-keep_cons p s (place r rest),
          length-keep_cons p r (s ∷ rest),
        ))
  ]

  pub arrange_count :
      (p : R → Bool) (rs : List R) → length (keep p (arrange rs)) ≡ length (keep p rs)
  arrange_count p [] = refl
  arrange_count p (r ∷ rest) = omega (
    arith,
    length-keep-place p r (arrange rest),
    arrange_count p rest,
    length-keep_cons p r rest,
    length-keep_cons p r (arrange rest),
  )

  pub arrange_single :
      (p : R → Bool) (rs : List R) → length (keep p rs) ≤ 1 → keep p (arrange rs) ≡ keep p rs
  unfolding keep
  arrange_single p [] h = refl
  arrange_single p (r ∷ rest) h = elim (Bool-cases (p r)) [
    | inl y ↦
        let few : length (keep p rest) ≤ 0 = ground (arith, length-keep_cons p r rest) in
        rw (y, nil_of_length (keep p rest) few)
          (keep-place_only p r (arrange rest) y (omega (arith, arrange_count p rest)))
    | inr n ↦
        let few : length (keep p rest) ≤ 1 = ground (arith, length-keep_cons p r rest) in
        rw n (keep-place_skip p r (arrange rest) n ∙ arrange_single p rest few)
  ]

  All-place {κ} : (P : R → Type κ) (r : R) (rs : List R) → P r → All P rs → All P (place r rs)
  All-place P r [] h a = (h, tt)
  All-place P r (s ∷ rest) h a = elim (Bool-cases (before (key r) (key s))) [
    | inl b ↦ rw b (h, a)
    | inr b ↦ rw b (a.0, All-place P r rest h a.1)
  ]

module _ {R : Type 0} (key : R → ℕ) where
  All-ge : (m n : ℕ) (rs : List R) → n ≤ m → All (λ s. key s ≤ n) rs → All (λ s. key s ≤ m) rs
  All-ge m n [] h a = tt
  All-ge m n (r ∷ rs) h a = (omega arith, All-ge m n rs h a.1)

  place-IsDescending :
      (r : R) (rs : List R)
      → IsDescending key rs
      → IsDescending key (place key (λ m n. leb n m) r rs)
  place-IsDescending r [] d = (tt, tt)
  place-IsDescending r (s ∷ rest) d = elim (Bool-cases (leb (key s) (key r))) [
    | inl e ↦
        let h : key s ≤ key r = ground arith in rw e ((h, All-ge (key r) (key s) rest h d.0), d)
    | inr e ↦
        let h : key r ≤ key s = ground arith in
        rw e (
          All-place key (λ m n. leb n m) (λ z. key z ≤ key s) r rest h d.0,
          place-IsDescending r rest d.1,
        )
  ]

  pub arrange-IsDescending : (rs : List R) → IsDescending key (arrange key (λ m n. leb n m) rs)
  arrange-IsDescending [] = tt
  arrange-IsDescending (r ∷ rest) =
      place-IsDescending r (arrange key (λ m n. leb n m) rest) (arrange-IsDescending rest)

  All-le : (m n : ℕ) (rs : List R) → m ≤ n → All (λ s. n ≤ key s) rs → All (λ s. m ≤ key s) rs
  All-le m n [] h a = tt
  All-le m n (r ∷ rs) h a = (omega arith, All-le m n rs h a.1)

  place-IsSorted : (r : R) (rs : List R) → IsSorted key rs → IsSorted key (place key leb r rs)
  place-IsSorted r [] d = (tt, tt)
  place-IsSorted r (s ∷ rest) d = elim (Bool-cases (leb (key r) (key s))) [
    | inl e ↦
        let h : key r ≤ key s = ground arith in rw e ((h, All-le (key r) (key s) rest h d.0), d)
    | inr e ↦
        let h : key s ≤ key r = ground arith in
        rw e (All-place key leb (λ z. key s ≤ key z) r rest h d.0, place-IsSorted r rest d.1)
  ]

  pub arrange-IsSorted : (rs : List R) → IsSorted key (arrange key leb rs)
  arrange-IsSorted [] = tt
  arrange-IsSorted (r ∷ rest) = place-IsSorted r (arrange key leb rest) (arrange-IsSorted rest)

  abbrev pub top : List R → ℕ
  top [] = 0
  top (r ∷ rest) = max (key r) (top rest)

  pub All-top : (n : ℕ) (rs : List R) → top rs < n → All (λ r. key r ≢ n) rs
  All-top n [] h = tt
  All-top n (r ∷ rest) h = ((λ e. omega arith), All-top n rest (omega arith))

abbrev pub list_engine : Engine
list_engine = record {
  Rows = List;
  rows = λ R t. t;
  add = λ R t r. t ++ r ∷ [];
  edit = λ R t p f. edit_first p f t;
  delete = λ R t p. keep (λ r. not (p r)) t;
  next_id = λ R id t. suc (top id t);
  order_by = λ R key rs. arrange key leb rs;
  order_by_desc = λ R key rs. arrange key (λ m n. leb n m) rs;
  rows-add = λ R t r. refl;
  rows-edit = λ R t p f. refl;
  rows-delete = λ R t p. refl;
  next_id_fresh = λ R id t. All-top id (suc (top id t)) t (omega arith);
  order_by-IsSorted = λ R key rs. arrange-IsSorted key rs;
  order_by_count = λ R key p rs. arrange_count key leb p rs;
  order_by_single = λ R key p rs h. arrange_single key leb p rs h;
  order_by_desc-IsDescending = λ R key rs. arrange-IsDescending key rs;
  order_by_desc_count = λ R key p rs. arrange_count key (λ m n. leb n m) p rs;
  order_by_desc_single = λ R key p rs h. arrange_single key (λ m n. leb n m) p rs h;
}
