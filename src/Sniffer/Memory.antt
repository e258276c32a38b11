-- ===== src/Sniffer/Memory.antt =====
-- Byte buffers: slices, slice assignment, and little-endian fields.
use mathlib.Core.Path.{ap₂, subst}
use native.Mathlib.Nat.{pow-suc}
use port_sentinel.Base.{
  ℕ, zero, suc, ◌+◌, ◌*◌, ◌/◌, ◌%◌, ◌^◌, ◌<◌, ◌≤◌, ◌≡◌, refl, ◌⊎◌, List, [], ◌∷◌, arith, ◌==◌,
  nat_keys, if◌then◌else◌, length, ◌∙◌,
}

-- A segment of shared memory: the byte at each offset.
abbrev pub Buf : Type 0
Buf = ℕ → ℕ

unfoldable pub set_byte : Buf → ℕ → ℕ → Buf
set_byte buf i b j = if j == i then b else buf j

-- `bytes(buf[offset:offset + n])`
unfoldable pub slice : Buf → ℕ → ℕ → List ℕ
slice buf offset zero = []
slice buf offset (suc n) = buf offset ∷ slice buf (suc offset) n

-- `buf[offset:offset + len(bs)] = bs`
unfoldable pub write : Buf → ℕ → List ℕ → Buf
write buf offset [] = buf
write buf offset (b ∷ bs) = set_byte (write buf (suc offset) bs) offset b

pub write_apart :
    (buf : Buf) (offset : ℕ) (bs : List ℕ) (j : ℕ)
    → (j < offset) ⊎ (offset + length bs ≤ j)
    → write buf offset bs j ≡ buf j
unfolding write set_byte
write_apart buf offset [] j h = refl
write_apart buf offset (b ∷ bs) j h =
    ground (arith, write_apart buf (suc offset) bs j (omega arith))

slice-ext :
    (a b : Buf) (offset n : ℕ)
    → ((j : ℕ) → offset ≤ j → j < offset + n → a j ≡ b j)
    → slice a offset n ≡ slice b offset n
unfolding slice
slice-ext a b offset zero h = refl
slice-ext a b offset (suc n) h =
    ap₂ (◌∷◌) (h offset (omega arith) (omega arith))
      (slice-ext a b (suc offset) n (λ j l u. h j (omega arith) (omega arith)))

pub slice-write :
    (buf : Buf) (offset : ℕ) (bs : List ℕ) → slice (write buf offset bs) offset (length bs) ≡ bs
unfolding slice write
slice-write buf offset [] = refl
slice-write buf offset (b ∷ bs) = ap₂ (◌∷◌) (unfold set_byte in ground arith) (
    slice-ext (set_byte (write buf (suc offset) bs) offset b) (write buf (suc offset) bs)
      (suc offset) (length bs) (λ j l u. unfold set_byte in ground arith)
    ∙ slice-write buf (suc offset) bs)

pub slice-write_of_length :
    (buf : Buf) (offset n : ℕ) (bs : List ℕ)
    → length bs ≡ n
    → slice (write buf offset bs) offset n ≡ bs
slice-write_of_length buf offset n bs h =
    subst (λ k. slice (write buf offset bs) offset k ≡ bs) h (slice-write buf offset bs)

-- A slice that a write does not touch.
pub slice-write_apart :
    (buf : Buf) (offset : ℕ) (bs : List ℕ) (from n : ℕ)
    → (from + n ≤ offset) ⊎ (offset + length bs ≤ from)
    → slice (write buf offset bs) from n ≡ slice buf from n
slice-write_apart buf offset bs from n h =
    slice-ext (write buf offset bs) buf from n (λ j l u. write_apart buf offset bs j (omega arith))

-- A slice that a byte does not touch.
pub slice-set_byte_apart :
    (buf : Buf) (i b from n : ℕ)
    → (from + n ≤ i) ⊎ (i < from)
    → slice (set_byte buf i b) from n ≡ slice buf from n
slice-set_byte_apart buf i b from n h =
    slice-ext (set_byte buf i b) buf from n (λ j l u. unfold set_byte in ground arith)

-- An unsigned field of `n` bytes, least significant first.
unfoldable pub le_bytes : ℕ → ℕ → List ℕ
le_bytes zero v = []
le_bytes (suc n) v = (v % 256) ∷ le_bytes n (v / 256)

unfoldable pub of_le : List ℕ → ℕ
of_le [] = 0
of_le (b ∷ bs) = b + 256 * of_le bs

pub of_le-le_bytes : (n v : ℕ) → v < 256 ^ n → of_le (le_bytes n v) ≡ v
unfolding of_le le_bytes
of_le-le_bytes zero v h = omega arith
of_le-le_bytes (suc n) v h = omega (arith, of_le-le_bytes n (v / 256) (grind (arith, pow-suc)))
