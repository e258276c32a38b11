-- ===== src/Base/Equality.antt =====
-- Equality of keys as an interface.
use Prim.Native.Nat.{ℕ}
use Prim.Native.String.{String}
use mathlib.Core.Path.{◌≡◌, refl}
use mathlib.Core.Logic.{◌↔◌, ◌≢◌}
use mathlib.Core.Bool.{Bool, true, false, ◌&&◌}
use mathlib.Core.List.{List, [], ◌∷◌}
use native.Mathlib.Omega.{arith}
use text.Mathlib.Text.{◌==◌ as str_eq}
use text.Mathlib.TextEquality.{eq_iff}
use port_sentinel.Base.Tests.{nat_beq, nat_beq_iff, if◌then◌else◌}

pub record HasEq {ℓ} (A : Type ℓ) : Type ℓ where
  pub same : A → A → Bool
  pub same_iff : (a b : A) → (same a b ≡ true) ↔ (a ≡ b)

infix 50 ◌==◌
abbrev pub ◌==◌ {ℓ} : {A : Type ℓ} ⦃e : HasEq A⦄ → A → A → Bool
◌==◌ ⦃e⦄ = e.same

module _ {ℓ} {A : Type ℓ} ⦃e : HasEq A⦄ where
  pub same_refl : (a : A) → (a == a) ≡ true
  same_refl a = (e.same_iff a a).1 refl

  pub same_ne : (a b : A) → a ≢ b → (a == b) ≡ false
  same_ne a b h = ground (arith, e.same_iff a b)

  -- `a in xs`
  unfoldable pub contains : List A → A → Bool
  contains [] a = false
  contains (x ∷ xs) a = if x == a then true else contains xs a

-- Texts, numbers, pairs and lists as keys.
instance abbrev pub text_keys : HasEq String
text_keys = record { same = str_eq; same_iff = eq_iff }

instance abbrev pub nat_keys : HasEq ℕ
nat_keys = record { same = nat_beq; same_iff = nat_beq_iff }

abbrev pub pair_same {ℓ} : {A B : Type ℓ} ⦃a : HasEq A⦄ ⦃b : HasEq B⦄ → A × B → A × B → Bool
pair_same (x, y) (x', y') = x == x' && y == y'

pub pair_same_iff {ℓ} :
    {A B : Type ℓ} ⦃a : HasEq A⦄ ⦃b : HasEq B⦄ (p q : A × B) → (pair_same p q ≡ true) ↔ (p ≡ q)
pair_same_iff ⦃a⦄ ⦃b⦄ (x, y) (x', y') = ground (arith, a.same_iff x x', b.same_iff y y')

instance abbrev pub pair_keys {ℓ} : {A B : Type ℓ} ⦃a : HasEq A⦄ ⦃b : HasEq B⦄ → HasEq (A × B)
pair_keys ⦃a⦄ ⦃b⦄ = record { same = pair_same; same_iff = pair_same_iff }

abbrev pub list_same {ℓ} : {A : Type ℓ} ⦃e : HasEq A⦄ → List A → List A → Bool
list_same [] [] = true
list_same [] (y ∷ ys) = false
list_same (x ∷ xs) [] = false
list_same (x ∷ xs) (y ∷ ys) = x == y && list_same xs ys

pub list_same_iff {ℓ} :
    {A : Type ℓ} ⦃e : HasEq A⦄ (xs ys : List A) → (list_same xs ys ≡ true) ↔ (xs ≡ ys)
list_same_iff [] [] = ground arith
list_same_iff [] (y ∷ ys) = ground arith
list_same_iff (x ∷ xs) [] = ground arith
list_same_iff ⦃e⦄ (x ∷ xs) (y ∷ ys) = ground (arith, e.same_iff x y, list_same_iff xs ys)

instance abbrev pub list_keys {ℓ} : {A : Type ℓ} ⦃e : HasEq A⦄ → HasEq (List A)
list_keys = record { same = list_same; same_iff = list_same_iff }
