-- ===== src/Database/Engine.antt =====
-- What the database layer uses of SQLAlchemy: tables of rows, read and changed in committed
-- sessions.
use port_sentinel.Base.Sort.{IsSorted}
use port_sentinel.Base.{
  ℕ, List, Option, Bool, keep, ◌∷◌, [], ◌++◌, not, length, All, none, some, ◌≤◌, if◌then◌else◌, ◌≡◌,
  ◌≢◌,
}

-- `row` is the first row found, `query.filter(p).first()`.
abbrev pub first {ℓ} : {R : Type ℓ} → (R → Bool) → List R → Option R
first p [] = none
first p (r ∷ rest) = if p r then some r else first p rest

-- Assignment to the fields of the first row found.
abbrev pub edit_first {ℓ} : {R : Type ℓ} → (R → Bool) → (R → R) → List R → List R
edit_first p f [] = []
edit_first p f (r ∷ rest) = if p r then f r ∷ rest else r ∷ edit_first p f rest

abbrev pub IsDescending : {R : Type 0} → (R → ℕ) → List R → Type 0
IsDescending key [] = Unit
IsDescending key (r ∷ rest) = All (λ s. key s ≤ key r) rest × IsDescending key rest

-- A session reads the rows of a table as a list, in which a new row stands last. `order_by` and
-- `order_by_desc` may put rows with one key in any order. `next_id` is the value that an
-- autoincremented column gets.
pub record Engine : Type 1 where
  pub Rows : Type 0 → Type 0
  pub rows : (R : Type 0) → Rows R → List R
  pub add : (R : Type 0) → Rows R → R → Rows R
  pub edit : (R : Type 0) → Rows R → (R → Bool) → (R → R) → Rows R
  pub delete : (R : Type 0) → Rows R → (R → Bool) → Rows R
  pub next_id : (R : Type 0) → (R → ℕ) → Rows R → ℕ
  pub order_by : (R : Type 0) → (R → ℕ) → List R → List R
  pub order_by_desc : (R : Type 0) → (R → ℕ) → List R → List R
  pub rows-add : (R : Type 0) (t : Rows R) (r : R) → rows R (add R t r) ≡ rows R t ++ r ∷ []
  pub rows-edit :
      (R : Type 0) (t : Rows R) (p : R → Bool) (f : R → R)
      → rows R (edit R t p f) ≡ edit_first p f (rows R t)
  pub rows-delete :
      (R : Type 0) (t : Rows R) (p : R → Bool)
      → rows R (delete R t p) ≡ keep (λ r. not (p r)) (rows R t)
  pub next_id_fresh :
      (R : Type 0) (id : R → ℕ) (t : Rows R) → All (λ r. id r ≢ next_id R id t) (rows R t)
  pub order_by-IsSorted :
      (R : Type 0) (key : R → ℕ) (rs : List R) → IsSorted key (order_by R key rs)
  pub order_by_count :
      (R : Type 0) (key : R → ℕ) (p : R → Bool) (rs : List R)
      → length (keep p (order_by R key rs)) ≡ length (keep p rs)
  pub order_by_single :
      (R : Type 0) (key : R → ℕ) (p : R → Bool) (rs : List R)
      → length (keep p rs) ≤ 1
      → keep p (order_by R key rs) ≡ keep p rs
  pub order_by_desc-IsDescending :
      (R : Type 0) (key : R → ℕ) (rs : List R) → IsDescending key (order_by_desc R key rs)
  pub order_by_desc_count :
      (R : Type 0) (key : R → ℕ) (p : R → Bool) (rs : List R)
      → length (keep p (order_by_desc R key rs)) ≡ length (keep p rs)
  pub order_by_desc_single :
      (R : Type 0) (key : R → ℕ) (p : R → Bool) (rs : List R)
      → length (keep p rs) ≤ 1
      → keep p (order_by_desc R key rs) ≡ keep p rs
