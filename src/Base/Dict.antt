-- ===== src/Base/Dict.antt =====
-- Python's `dict`: an association list in insertion order, with no key twice.
use Prim.Native.Nat.{suc}
use mathlib.Core.Path.{◌≡◌, refl}
use mathlib.Core.Logic.{◌≢◌, inl, inr}
use mathlib.Core.Bool.{Bool, true}
use mathlib.Core.Path.{ap₂, subst, sym}
use mathlib.Core.Option.{Option, none, some}
use mathlib.Core.List.{List, [], ◌∷◌, map}
use native.Mathlib.Omega.{arith}
use port_sentinel.Base.Tests.{if◌then◌else◌, is_some, Bool-cases}
use port_sentinel.Base.Equality.{HasEq, ◌==◌, same_refl, same_ne}
use port_sentinel.Base.Lists.{keep, length, All}

abbrev pub Dict {ℓ} : Type ℓ → Type ℓ → Type ℓ
Dict K V = List (K × V)

module _ {ℓ} {K V : Type ℓ} where
  abbrev pub keys : Dict K V → List K
  keys = map (λ e. e.0)

  abbrev pub values : Dict K V → List V
  values = map (λ e. e.1)

module _ {ℓ} {K V : Type ℓ} ⦃e : HasEq K⦄ where
  -- `d.get(k)`
  unfoldable pub get : Dict K V → K → Option V
  get [] k = none
  get ((j, v) ∷ d) k = if j == k then some v else get d k

  -- `k in d`
  abbrev pub has : Dict K V → K → Bool
  has d k = is_some (get d k)

  -- `d[k] = v`: a new key goes to the end, an old one keeps its place.
  unfoldable pub put : Dict K V → K → V → Dict K V
  put [] k v = (k, v) ∷ []
  put ((j, w) ∷ d) k v = if j == k then (j, v) ∷ d else (j, w) ∷ put d k v

  -- `d.pop(k, None)`, `del d[k]`
  unfoldable pub remove : Dict K V → K → Dict K V
  remove [] k = []
  remove ((j, w) ∷ d) k = if j == k then d else (j, w) ∷ remove d k

  abbrev pub Absent : K → Dict K V → Type ℓ
  Absent k = All (λ entry. entry.0 ≢ k)

  abbrev pub IsDict : Dict K V → Type ℓ
  IsDict [] = Unit
  IsDict ((j, w) ∷ d) = Absent j d × IsDict d

  pub get-put :
      (d : Dict K V) (k : K) (v : V) (j : K)
      → get (put d k v) j ≡ (if k == j then some v else get d j)
  unfolding get put
  get-put [] k v j = refl
  get-put ((i, w) ∷ d) k v j =
      ground (arith, e.same_iff i k, e.same_iff i j, e.same_iff k j, get-put d k v j)

  pub get-put_self : (d : Dict K V) (k : K) (v : V) → get (put d k v) k ≡ some v
  get-put_self d k v = rw (get-put d k v k, same_refl k)

  pub get_of_Absent : (d : Dict K V) (k : K) → Absent k d → get d k ≡ none
  unfolding get
  get_of_Absent [] k h = refl
  get_of_Absent ((i, w) ∷ d) k h = rw (same_ne i k h.0) (get_of_Absent d k h.1)

  pub get-remove :
      (d : Dict K V) (k j : K) → IsDict d → get (remove d k) j ≡ (if k == j then none else get d j)
  unfolding get remove
  get-remove [] k j h = ground arith
  get-remove ((i, w) ∷ d) k j h = ground (
    arith,
    e.same_iff i k,
    e.same_iff i j,
    e.same_iff k j,
    get-remove d k j h.1,
    get_of_Absent d i h.0,
  )

  pub Absent-put :
      (d : Dict K V) (k : K) (v : V) (j : K) → k ≢ j → Absent j d → Absent j (put d k v)
  unfolding put
  Absent-put [] k v j n h = (n, tt)
  Absent-put ((i, w) ∷ d) k v j n h = elim (Bool-cases (i == k)) [
    | inl q ↦ rw q h
    | inr q ↦ rw q (h.0, Absent-put d k v j n h.1)
  ]

  pub Absent-remove : (d : Dict K V) (k j : K) → Absent j d → Absent j (remove d k)
  unfolding remove
  Absent-remove [] k j h = tt
  Absent-remove ((i, w) ∷ d) k j h = elim (Bool-cases (i == k)) [
    | inl q ↦ rw q h.1
    | inr q ↦ rw q (h.0, Absent-remove d k j h.1)
  ]

  pub put-IsDict : (d : Dict K V) (k : K) (v : V) → IsDict d → IsDict (put d k v)
  unfolding put
  put-IsDict [] k v h = (tt, tt)
  put-IsDict ((i, w) ∷ d) k v h = elim (Bool-cases (i == k)) [
    | inl q ↦ rw q h
    | inr q ↦
        rw q (Absent-put d k v i (λ p. ground (arith, e.same_iff i k)) h.0, put-IsDict d k v h.1)
  ]

  pub remove-IsDict : (d : Dict K V) (k : K) → IsDict d → IsDict (remove d k)
  unfolding remove
  remove-IsDict [] k h = tt
  remove-IsDict ((i, w) ∷ d) k h = elim (Bool-cases (i == k)) [
    | inl q ↦ rw q h.1
    | inr q ↦ rw q (Absent-remove d k i h.0, remove-IsDict d k h.1)
  ]

  pub length-put :
      (d : Dict K V) (k : K) (v : V)
      → length (put d k v) ≡ (if is_some (get d k) then length d else suc (length d))
  unfolding get put
  length-put [] k v = refl
  length-put ((i, w) ∷ d) k v = ground (arith, length-put d k v)

module _ {ℓ κ} {K V : Type ℓ} ⦃e : HasEq K⦄ (P : K × V → Type κ) where
  pub All-get : (d : Dict K V) (k : K) (v : V) → All P d → get d k ≡ some v → P (k, v)
  unfolding get
  All-get [] k v h q = cc
  All-get ((i, w) ∷ d) k v h q = elim (Bool-cases (i == k)) [
    | inl b ↦
        let same_key : i ≡ k = (e.same_iff i k).0 b in
        let same_value : w ≡ v = ground arith in
        subst P (ap₂ (λ x y. (x, y)) same_key same_value) h.0
    | inr b ↦ All-get d k v h.1 (rw b at q)
  ]

  pub All-put : (d : Dict K V) (k : K) (v : V) → P (k, v) → All P d → All P (put d k v)
  unfolding put
  All-put [] k v p h = (p, tt)
  All-put ((i, w) ∷ d) k v p h = elim (Bool-cases (i == k)) [
    | inl b ↦ rw b (subst (λ x. P (x, v)) (sym ((e.same_iff i k).0 b)) p, h.1)
    | inr b ↦ rw b (h.0, All-put d k v p h.1)
  ]

  pub All-remove : (d : Dict K V) (k : K) → All P d → All P (remove d k)
  unfolding remove
  All-remove [] k h = tt
  All-remove ((i, w) ∷ d) k h = elim (Bool-cases (i == k)) [
    | inl b ↦ rw b h.1
    | inr b ↦ rw b (h.0, All-remove d k h.1)
  ]

module _ {ℓ} {K V : Type ℓ} ⦃e : HasEq K⦄ where
  -- A comprehension over the items keeps what a key finds, if that passes the test.
  pub get-keep :
      (p : K × V → Bool) (d : Dict K V) (k : K) (v : V)
      → get d k ≡ some v
      → p (k, v) ≡ true
      → get (keep p d) k ≡ some v
  unfolding get keep
  get-keep p [] k v h q = cc
  get-keep p ((i, w) ∷ d) k v h q = elim (Bool-cases (i == k)) [
    | inl b ↦
        let same_key : i ≡ k = (e.same_iff i k).0 b in
        let same_value : w ≡ v = ground arith in
        let passes : p (i, w) ≡ true =
          subst (λ x. p x ≡ true) (sym (ap₂ (λ x y. (x, y)) same_key same_value)) q in
        rw (passes, b, same_value)
    | inr b ↦ ground (arith, get-keep p d k v (rw b at h) q)
  ]

  -- The values of a dictionary whose values carry their keys.
  abbrev pub Keyed : (V → K) → Dict K V → Type ℓ
  Keyed key = All (λ entry. key entry.1 ≡ entry.0)

  -- The first element with the key.
  unfoldable pub find_by : (V → K) → K → List V → Option V
  find_by key k [] = none
  find_by key k (x ∷ xs) = if key x == k then some x else find_by key k xs

  pub find_by-values :
      (key : V → K) (k : K) (d : Dict K V) → Keyed key d → find_by key k (values d) ≡ get d k
  unfolding find_by get
  find_by-values key k [] h = refl
  find_by-values key k ((i, w) ∷ d) h = rw (h.0, find_by-values key k d h.1)
