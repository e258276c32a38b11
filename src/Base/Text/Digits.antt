-- ===== src/Base/Text/Digits.antt =====
-- What `str(n)` prints is read back.
use port_sentinel.Base.{if◌then◌else◌}
use Prim.Native.Char.{code}
use Prim.Native.Nat.{ℕ, zero, suc, ◌+◌, ◌-◌, ◌*◌, ◌/◌, ◌%◌, ◌<◌}
use Prim.Native.String.{String, ◌++◌ as text_append}
use Prim.Native.String.append.{nil as text_nil, cons as text_cons}
use mathlib.Core.Bool.{true}
use mathlib.Core.List.{List, [], ◌∷◌, ◌++◌, append_assoc}
use mathlib.Core.Logic.{inl, inr}
use mathlib.Core.Path.{◌≡◌, refl, ap, ◌∙◌}
use native.Mathlib.Omega.{arith}
use port_sentinel.Base.Tests.{ltb, Bool-cases}
use port_sentinel.Base.Text.{digit, show_fuel, show}
use port_sentinel.Base.Words.{codes, is_digit}

pub codes-append : (s t : String) → codes (text_append s t) ≡ codes s ++ codes t
unfolding codes
codes-append String.[] t = ap codes (text_nil t)
codes-append (String.◌∷◌ c s) t = ap codes (text_cons c s t) ∙ ap (◌∷◌ (code c)) (codes-append s t)

codes-digit : (d : ℕ) → d < 10 → codes (digit d) ≡ (48 + d) ∷ []
unfolding codes digit
codes-digit zero h = refl
codes-digit (suc zero) h = refl
codes-digit (suc (suc zero)) h = refl
codes-digit (suc (suc (suc zero))) h = refl
codes-digit (suc (suc (suc (suc zero)))) h = refl
codes-digit (suc (suc (suc (suc (suc zero))))) h = refl
codes-digit (suc (suc (suc (suc (suc (suc zero)))))) h = refl
codes-digit (suc (suc (suc (suc (suc (suc (suc zero))))))) h = refl
codes-digit (suc (suc (suc (suc (suc (suc (suc (suc zero)))))))) h = refl
codes-digit (suc (suc (suc (suc (suc (suc (suc (suc (suc zero))))))))) h = refl
codes-digit (suc (suc (suc (suc (suc (suc (suc (suc (suc (suc n)))))))))) h = absurd (omega arith)

-- `\d+` on what is left after a number read so far: the number, and the rest.
unfoldable pub read_digits : ℕ → List ℕ → ℕ × List ℕ
read_digits n [] = (n, [])
read_digits n (c ∷ s) =
    let more = read_digits (n * 10 + (c - 48)) s in if is_digit c then more else (n, c ∷ s)

read_digits-digit :
    (n d : ℕ) (s : List ℕ) → d < 10 → read_digits n ((48 + d) ∷ s) ≡ read_digits (n * 10 + d) s
unfolding read_digits
read_digits-digit n d s h =
    let first : is_digit (48 + d) ≡ true = ground arith in
    let same : n * 10 + (48 + d - 48) ≡ n * 10 + d = omega arith in rw (first, same) refl

read_digits-show_fuel :
    (f n : ℕ) (s : List ℕ) → n < f → read_digits 0 (codes (show_fuel f n) ++ s) ≡ read_digits n s
unfolding show_fuel
read_digits-show_fuel zero n s h = absurd (omega arith)
read_digits-show_fuel (suc f) n s h = elim (Bool-cases (ltb n 10)) [
  | inl y ↦
      let small : n < 10 = ground arith in
      rw (y, codes-digit n small)
        (read_digits-digit 0 n s small ∙ ap (λ k. read_digits k s) (omega arith))
  | inr m ↦
      let below : n % 10 < 10 = omega arith in
      let ih = read_digits-show_fuel f (n / 10) ((48 + n % 10) ∷ s) (ground arith) in
      rw
        (
          m,
          codes-append (show_fuel f (n / 10)) (digit (n % 10)),
          codes-digit (n % 10) below,
          append_assoc (codes (show_fuel f (n / 10))) ((48 + n % 10) ∷ []) s,
        )
        (ih ∙ read_digits-digit (n / 10) (n % 10) s below ∙ ap (λ k. read_digits k s) (omega arith))
]

pub read_digits-show : (n : ℕ) (s : List ℕ) → read_digits 0 (codes (show n) ++ s) ≡ read_digits n s
unfolding show
read_digits-show n s = read_digits-show_fuel (suc n) n s (omega arith)

-- A number is printed as some text and a last digit.
last_digit :
    (f n : ℕ)
    → n < f
    → (q : List ℕ) × (d : ℕ) × (codes (show_fuel f n) ≡ q ++ (48 + d) ∷ []) × (d < 10)
unfolding show_fuel
last_digit zero n h = absurd (omega arith)
last_digit (suc f) n h = elim (Bool-cases (ltb n 10)) [
  | inl y ↦ let small : n < 10 = ground arith in ([], n, rw y (codes-digit n small), small)
  | inr m ↦
      let below : n % 10 < 10 = omega arith in
      (
        codes (show_fuel f (n / 10)),
        n % 10,
        rw (m, codes-append (show_fuel f (n / 10)) (digit (n % 10)), codes-digit (n % 10) below)
            refl,
        below,
      )
]

pub last_digit-show :
    (n : ℕ) → (q : List ℕ) × (d : ℕ) × (codes (show n) ≡ q ++ (48 + d) ∷ []) × (d < 10)
unfolding show
last_digit-show n = last_digit (suc n) n (omega arith)

-- and it starts with a digit.
first_digit :
    (f n : ℕ) → n < f → (d : ℕ) × (q : List ℕ) × (codes (show_fuel f n) ≡ (48 + d) ∷ q) × (d < 10)
unfolding show_fuel
first_digit zero n h = absurd (omega arith)
first_digit (suc f) n h = elim (Bool-cases (ltb n 10)) [
  | inl y ↦ let small : n < 10 = ground arith in (n, [], rw y (codes-digit n small), small)
  | inr m ↦
      let (d, q, e, below) = first_digit f (n / 10) (ground arith) in
      (
        d,
        q ++ codes (digit (n % 10)),
        rw (m, codes-append (show_fuel f (n / 10)) (digit (n % 10)), e) refl,
        below,
      )
]

pub first_digit-show : (n : ℕ) → (d : ℕ) × (q : List ℕ) × (codes (show n) ≡ (48 + d) ∷ q) × (d < 10)
unfolding show
first_digit-show n = first_digit (suc n) n (omega arith)
