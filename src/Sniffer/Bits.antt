-- ===== src/Sniffer/Bits.antt =====
-- Bits of a byte: `b | (1 << k)`, `b & ~(1 << k)` and `b & (1 << k)`.
use mathlib.Core.Path.{subst}
use Prim.Native.Nat.{bit_and, bit_or}
use port_sentinel.Base.{
  ℕ, zero, suc, ◌-◌, ◌^◌, ◌<◌, ◌≡◌, refl, Bool, true, false, not, ◌&&◌, arith, ◌==◌, nat_keys,
  if◌then◌else◌, leb, sym, Bool-cases, inl, inr,
}

unfoldable pub set_bit : ℕ → ℕ → ℕ
set_bit b k = bit_or b (2 ^ k)

-- On a byte `~(1 << k)` has the bits of `255 - (1 << k)`.
unfoldable pub clear_bit : ℕ → ℕ → ℕ
clear_bit b k = bit_and b (255 - 2 ^ k)

unfoldable pub test_bit : ℕ → ℕ → Bool
test_bit b k = not (bit_and b (2 ^ k) == 0)

abbrev xor_not : Bool → Bool → Bool
xor_not true b = b
xor_not false b = not b

-- Every value below a bound, by evaluation.
check_below : ℕ → (ℕ → Bool) → Bool
check_below zero p = true
check_below (suc n) p = p n && check_below n p

check_below_sound : (n : ℕ) (p : ℕ → Bool) (x : ℕ) → check_below n p ≡ true → x < n → p x ≡ true
unfolding check_below
check_below_sound zero p x h lt = absurd (omega arith)
check_below_sound (suc n) p x h lt = elim (Bool-cases (x == n)) [
  | inl e ↦ let same : x ≡ n = ground arith in subst (λ y. p y ≡ true) (sym same) (ground arith)
  | inr e ↦ check_below_sound n p x (ground arith) (ground arith)
]

abbrev bit_laws : ℕ → ℕ → ℕ → Bool
bit_laws b k j =
    xor_not (test_bit (set_bit b k) j) (if j == k then true else test_bit b j)
    && xor_not (test_bit (clear_bit b k) j) (if j == k then false else test_bit b j)

abbrev byte_laws : ℕ → Bool
byte_laws b =
    check_below 8
      (λ k. leb (set_bit b k) 255 && leb (clear_bit b k) 255 && check_below 8 (bit_laws b k))

bit_table : check_below 256 byte_laws ≡ true
unfolding check_below set_bit clear_bit test_bit
bit_table = refl

xor_not-eq : (a b : Bool) → xor_not a b ≡ true → a ≡ b
xor_not-eq true b h = sym h
xor_not-eq false true h = cc
xor_not-eq false false h = refl

module _ (b k : ℕ) (hb : b < 256) (hk : k < 8) where
  row : (leb (set_bit b k) 255 && leb (clear_bit b k) 255 && check_below 8 (bit_laws b k)) ≡ true
  row =
      check_below_sound 8
        (λ n. leb (set_bit b n) 255 && leb (clear_bit b n) 255 && check_below 8 (bit_laws b n)) k
        (check_below_sound 256 byte_laws b bit_table hb) hk

  pub set_bit-lt : set_bit b k < 256
  set_bit-lt = let h = row in ground arith

  pub clear_bit-lt : clear_bit b k < 256
  clear_bit-lt = let h = row in ground arith

  laws : (j : ℕ) → j < 8 → bit_laws b k j ≡ true
  laws j hj = check_below_sound 8 (bit_laws b k) j (let h = row in ground arith) hj

  pub test_bit-set_bit :
      (j : ℕ) → j < 8 → test_bit (set_bit b k) j ≡ (if j == k then true else test_bit b j)
  test_bit-set_bit j hj = xor_not-eq _ _ (let h = laws j hj in ground arith)

  pub test_bit-clear_bit :
      (j : ℕ) → j < 8 → test_bit (clear_bit b k) j ≡ (if j == k then false else test_bit b j)
  test_bit-clear_bit j hj = xor_not-eq _ _ (let h = laws j hj in ground arith)

no_bits : check_below 8 (λ j. not (test_bit 0 j)) ≡ true
unfolding check_below test_bit
no_bits = refl

pub test_bit-zero : (j : ℕ) → j < 8 → test_bit 0 j ≡ false
test_bit-zero j h =
    let clear : not (test_bit 0 j) ≡ true =
      check_below_sound 8 (λ n. not (test_bit 0 n)) j no_bits h in
    ground arith
