-- ===== src/Sniffer/Shm/Scan.antt =====
-- `read_all_active_ports` returns the contents of shared memory, in the order of ports.
use mathlib.Core.Path.{ap₂}
use port_sentinel.Sniffer.Bits.{test_bit, test_bit-zero}
use port_sentinel.Sniffer.Entry.{Platform, max_ports, bitmap_size, bitmap_offset}
use port_sentinel.Sniffer.Memory.{Buf}
use port_sentinel.Sniffer.Shm.{
  PortEntry, to_list, read_port_entry, scan_bits, scan_bytes, read_all_active_ports,
}
use port_sentinel.Sniffer.Shm.Contents.{Holds}
use port_sentinel.Base.{
  ℕ, zero, suc, ◌+◌, ◌*◌, ◌/◌, ◌%◌, ◌<◌, ◌≤◌, ◌≡◌, refl, sym, ap, ◌∙◌, List, [], ◌∷◌, ◌++◌, Option,
  none, some, is_some, if◌then◌else◌, ◌==◌, nat_keys, arith, Bool-cases, Option-cases, inl, inr,
  append_assoc,
}

-- The entries of `n` ports from `p` on.
unfoldable pub collect : (ℕ → Option PortEntry) → ℕ → ℕ → List PortEntry
collect m p zero = []
collect m p (suc n) = (elim (m p) [ none ↦ [] | some e ↦ e ∷ [] ]) ++ collect m (suc p) n

collect-add :
    (m : ℕ → Option PortEntry) (p a b : ℕ)
    → collect m p (a + b) ≡ collect m p a ++ collect m (p + a) b
unfolding collect
collect-add m p zero b =
    let e : zero + b ≡ b = omega arith in
    let f : p ≡ p + zero = omega arith in ap (collect m p) e ∙ ap (λ q. collect m q b) f
collect-add m p (suc a) b =
    let e : suc a + b ≡ suc (a + b) = omega arith in
    let f : suc p + a ≡ p + suc a = omega arith in
    ap (collect m p) e
    ∙ ap (λ l. (elim (m p) [ none ↦ [] | some x ↦ x ∷ [] ]) ++ l)
        (collect-add m (suc p) a b ∙ ap (λ q. collect m (suc p) a ++ collect m q b) f)
    ∙ sym (
        append_assoc (elim (m p) [ none ↦ [] | some x ↦ x ∷ [] ]) (collect m (suc p) a)
          (collect m (p + suc a) b))

module _ (pf : Platform) (key : List ℕ) (buf : Buf) (m : ℕ → Option PortEntry)
    (holds : Holds pf key buf m) where
  -- One bit of the scan.
  scan_bit :
      (i bit : ℕ)
      → i < bitmap_size
      → bit < 8
      → (if test_bit (buf (bitmap_offset + i)) bit
          then to_list pf (read_port_entry pf key buf (i * 8 + bit))
          else [])
        ≡ (elim (m (i * 8 + bit)) [ none ↦ [] | some e ↦ e ∷ [] ])
  scan_bit i bit hi hb =
      let p : ℕ = i * 8 + bit in
      let lp : p < max_ports = omega arith in
      let byte : p / 8 ≡ i = omega arith in
      let place : p % 8 ≡ bit = omega arith in
      let mark : test_bit (buf (bitmap_offset + i)) bit ≡ is_some (m p) =
        ap₂ (λ x y. test_bit (buf (bitmap_offset + x)) y) (sym byte) (sym place)
        ∙ holds.marked p lp in
      elim (Option-cases (m p)) [
        | inl absent ↦ rw (mark, absent)
        | inr (e, present) ↦ rw (mark, present, holds.stored p e lp present)
      ]

  scan_bits-collect :
      (i bit n : ℕ)
      → i < bitmap_size
      → bit + n ≤ 8
      → scan_bits pf key buf i bit n ≡ collect m (i * 8 + bit) n
  unfolding scan_bits collect
  scan_bits-collect i bit zero hi h = refl
  scan_bits-collect i bit (suc n) hi h =
      let next : i * 8 + suc bit ≡ suc (i * 8 + bit) = omega arith in
      ap₂ (◌++◌) (scan_bit i bit hi (omega arith))
        (scan_bits-collect i (suc bit) n hi (omega arith) ∙ ap (λ q. collect m q n) next)

  scan_bits_of_zero :
      (i bit n : ℕ) → buf (bitmap_offset + i) ≡ 0 → bit + n ≤ 8 → scan_bits pf key buf i bit n ≡ []
  unfolding scan_bits
  scan_bits_of_zero i bit zero z h = refl
  scan_bits_of_zero i bit (suc n) z h =
      rw (z, test_bit-zero bit (omega arith)) (scan_bits_of_zero i (suc bit) n z (omega arith))

  scan_byte :
      (i : ℕ)
      → i < bitmap_size
      → (if buf (bitmap_offset + i) == 0 then [] else scan_bits pf key buf i 0 8)
        ≡ collect m (i * 8) 8
  scan_byte i hi =
      let start : i * 8 + 0 ≡ i * 8 = omega arith in
      let all : scan_bits pf key buf i 0 8 ≡ collect m (i * 8) 8 =
        scan_bits-collect i 0 8 hi (omega arith) ∙ ap (λ q. collect m q 8) start in
      elim (Bool-cases (buf (bitmap_offset + i) == 0)) [
        | inl z ↦
            let empty : buf (bitmap_offset + i) ≡ 0 = ground arith in
            rw z (sym (scan_bits_of_zero i 0 8 empty (omega arith)) ∙ all)
        | inr nz ↦ rw nz all
      ]

  scan_bytes-collect :
      (i n : ℕ) → i + n ≤ bitmap_size → scan_bytes pf key buf i n ≡ collect m (i * 8) (n * 8)
  unfolding scan_bytes
  scan_bytes-collect i zero h = unfold collect in refl
  scan_bytes-collect i (suc n) h =
      let size : 8 + n * 8 ≡ suc n * 8 = omega arith in
      let next : suc i * 8 ≡ i * 8 + 8 = omega arith in
      ap₂ (◌++◌) (scan_byte i (omega arith))
        (scan_bytes-collect (suc i) n (omega arith) ∙ ap (λ q. collect m q (n * 8)) next)
      ∙ sym (collect-add m (i * 8) 8 (n * 8))
      ∙ ap (collect m (i * 8)) size

  -- A reader gets the entry of every port that has one, once each and in the order of ports, and
  -- nothing else.
  pub read_all_active_ports-collect : read_all_active_ports pf key buf ≡ collect m 0 max_ports
  unfolding read_all_active_ports
  read_all_active_ports-collect = scan_bytes-collect 0 bitmap_size (omega arith)
