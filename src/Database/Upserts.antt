-- ===== src/Database/Upserts.antt =====
-- What an upsert, and an order, do to a table that has each key once.
use mathlib.Core.Path.{subst}
use port_sentinel.Database.Engine.{Engine, first}
use port_sentinel.Database.Stores.{upsert}
use port_sentinel.Base.{
  ℕ, List, Option, HasEq, ◌==◌, All, ◌≡◌, Bool-cases, if◌then◌else◌, none, ◌≢◌, arith, inl, some,
  refl, inr, sym, Option-cases, ◌∙◌, ap, true, false,
}
use port_sentinel.Database.Keyed.{
  with_key, IsKeyed, first-append, first-edit_first, edit_first-IsKeyed, absent_of_first,
  append-IsKeyed, length-keep-key, first-keep,
}

-- What an upsert leaves at its key.
abbrev pub upserted : {R : Type 0} → (R → R) → R → Option R → R
upserted change new none = new
upserted change new (some r) = change r

module _ (sql : Engine) {K R : Type 0} ⦃e : HasEq K⦄ (key : R → K) where
  -- The row of a key among ordered rows.
  pub first-order_by :
      (order : R → ℕ) (k : K) (rs : List R)
      → IsKeyed key rs
      → first (with_key key k) (sql.order_by R order rs) ≡ first (with_key key k) rs
  first-order_by order k rs h =
      sym (first-keep (with_key key k) (sql.order_by R order rs))
      ∙ ap (first (with_key key k))
          (sql.order_by_single R order (with_key key k) rs (length-keep-key key k rs h))
      ∙ first-keep (with_key key k) rs

  pub first-order_by_desc :
      (order : R → ℕ) (k : K) (rs : List R)
      → IsKeyed key rs
      → first (with_key key k) (sql.order_by_desc R order rs) ≡ first (with_key key k) rs
  first-order_by_desc order k rs h =
      sym (first-keep (with_key key k) (sql.order_by_desc R order rs))
      ∙ ap (first (with_key key k))
          (sql.order_by_desc_single R order (with_key key k) rs (length-keep-key key k rs h))
      ∙ first-keep (with_key key k) rs

  pub first-upsert :
      (k : K) (change : R → R) (new : R) (t : sql.Rows R) (j : K)
      → ((r : R) → key (change r) ≡ key r)
      → key new ≡ k
      → first (with_key key j) (sql.rows R (upsert sql R (with_key key k) change new t)) ≡ (
          if k == j
          then some (upserted change new (first (with_key key k) (sql.rows R t)))
          else first (with_key key j) (sql.rows R t))
  unfolding upsert
  first-upsert k change new t j same at =
      elim (Option-cases (first (with_key key k) (sql.rows R t))) [
        | inl absent ↦
            let added = first-append key j (sql.rows R t) new in
            rw (absent, upsert, sql.rows-add R t new)
              (added ∙ elim (Bool-cases (k == j)) [
                | inl y ↦
                    let there : k ≡ j = (e.same_iff k j).0 y in
                    let gone : first (with_key key j) (sql.rows R t) ≡ none =
                      subst (λ i. first (with_key key i) (sql.rows R t) ≡ none) there absent in
                    let hit : (key new == j) ≡ true = (e.same_iff (key new) j).1 (at ∙ there) in
                    rw (gone, hit, y) refl
                | inr n ↦ let miss : (key new == j) ≡ false = rw at n in rw (miss, n) (ground arith)
              ])
        | inr (r, found) ↦
            rw (found, upsert, sql.rows-edit R t (with_key key k) change)
              (first-edit_first key k change j (sql.rows R t) same ∙ elim (Bool-cases (k == j)) [
                | inl y ↦
                    let there : k ≡ j = (e.same_iff k j).0 y in
                    let here : first (with_key key j) (sql.rows R t) ≡ some r =
                      subst (λ i. first (with_key key i) (sql.rows R t) ≡ some r) there found in
                    rw (here, y) refl
                | inr n ↦ rw n refl
              ])
      ]

  pub upsert-IsKeyed :
      (k : K) (change : R → R) (new : R) (t : sql.Rows R)
      → ((r : R) → key (change r) ≡ key r)
      → key new ≡ k
      → IsKeyed key (sql.rows R t)
      → IsKeyed key (sql.rows R (upsert sql R (with_key key k) change new t))
  unfolding upsert
  upsert-IsKeyed k change new t same at h =
      elim (Option-cases (first (with_key key k) (sql.rows R t))) [
        | inl absent ↦
            rw (absent, upsert, sql.rows-add R t new)
              (append-IsKeyed key (sql.rows R t) new h (
                subst (λ j. All (λ s. key s ≢ j) (sql.rows R t)) (sym at)
                  (absent_of_first key k (sql.rows R t) absent)))
        | inr (r, found) ↦
            rw (found, upsert, sql.rows-edit R t (with_key key k) change)
              (edit_first-IsKeyed key (with_key key k) change (sql.rows R t) same h)
      ]
