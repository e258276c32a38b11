-- ===== src/Sniffer/Shm/Contents.antt =====
-- What shared memory holds, as a partial map from ports to entries, and how a write changes it.
use port_sentinel.Sniffer.Bits.{set_bit, clear_bit, test_bit}
use port_sentinel.Sniffer.Entry.{
  Platform, RawEntry, InRange, pack, in_range, layout, in_range-InRange, length-layout,
  unpack-layout, max_ports, entry_size, bitmap_size, bitmap_offset,
}
use port_sentinel.Sniffer.Memory.{
  Buf, set_byte, slice, write, write_apart, slice-write_of_length, slice-write_apart,
  slice-set_byte_apart,
}
use port_sentinel.Sniffer.Shm.{
  PortEntry, bitmap_at, mark, to_raw, of_raw, store, read_raw, read_port_entry,
}
use port_sentinel.Base.{
  ℕ, ◌+◌, ◌*◌, ◌/◌, ◌%◌, ◌<◌, ◌≤◌, ◌≡◌, ◌≢◌, refl, ap, ◌∙◌, List, [], ◌∷◌, ◌++◌, Option, none, some,
  is_some, length, length-append, or_else, if◌then◌else◌, ◌==◌, nat_keys, list_keys, same_refl,
  arith, Bool-cases, inl, inr, take-append_of_length, drop-append_of_length, same_ne, ◌⊎◌,
}

entries_apart :
    (p q : ℕ)
    → q ≢ p
    → (q * entry_size + entry_size ≤ p * entry_size)
      ⊎ (p * entry_size + entry_size ≤ q * entry_size)
entries_apart p q h = grind arith

pub bit_of_port : (p q : ℕ) → q ≢ p → q / 8 ≡ p / 8 → q % 8 ≢ p % 8
bit_of_port p q h e = omega arith

module _ (pf : Platform) (key : List ℕ) where
  -- The memory holds the entry of each port that has one, signed and marked in the bitmap, and
  -- marks no other port.
  pub record Holds (buf : Buf) (m : ℕ → Option PortEntry) : Type 0 where
    pub bytes : (i : ℕ) → i < bitmap_size → buf (bitmap_offset + i) < 256
    pub marked : (p : ℕ) → p < max_ports → test_bit (buf (bitmap_at p)) (p % 8) ≡ is_some (m p)
    pub stored :
        (p : ℕ) (e : PortEntry)
        → p < max_ports
        → m p ≡ some e
        → read_port_entry pf key buf p ≡ some e

  -- The entry as a reader sees it: counters modulo 2^64, and the address as it prints.
  abbrev pub as_read : PortEntry → PortEntry
  as_read e = of_raw pf (to_raw pf e)

  -- The contents after a write.
  abbrev pub written : (ℕ → Option PortEntry) → PortEntry → ℕ → Option PortEntry
  written m e p = if p == e.port then (if e.active == 0 then none else some (as_read e)) else m p

  pub ip_size : (e : PortEntry) → length (to_raw pf e).ip_bytes ≡ 4
  unfolding to_raw
  ip_size e = of_address (pf.inet_aton e.remote_ip) refl
    where
      of_address :
          (o : Option (List ℕ))
          → pf.inet_aton e.remote_ip ≡ o
          → length (or_else (pf.inet_aton e.remote_ip) (0 ∷ 0 ∷ 0 ∷ 0 ∷ [])) ≡ 4
      of_address none q = rw q refl
      of_address (some bs) q = rw q (pf.address_size e.remote_ip bs q)

  pub pack-eq_some :
      (r : RawEntry) (bytes : List ℕ) → pack r ≡ some bytes → InRange r × (bytes ≡ layout r)
  unfolding pack
  pack-eq_some r bytes h = elim (Bool-cases (in_range r)) [
    | inl e ↦ (in_range-InRange r e, ground arith)
    | inr e ↦ absurd (ground arith)
  ]

  pub signed_size :
      (bytes : List ℕ) → length bytes ≡ 32 → length (bytes ++ pf.hmac key bytes) ≡ entry_size
  signed_size bytes h =
      omega (arith, length-append bytes (pf.hmac key bytes), pf.digest_size key bytes)

  pub read_raw-signed :
      (r : RawEntry)
      → length r.ip_bytes ≡ 4
      → InRange r
      → r.active ≢ 0
      → read_raw pf key (layout r ++ pf.hmac key (layout r)) ≡ some (of_raw pf r)
  unfolding read_raw
  read_raw-signed r h range a = rw (
    take-append_of_length 32 (layout r) (pf.hmac key (layout r)) (length-layout r h),
    drop-append_of_length 32 (layout r) (pf.hmac key (layout r)) (length-layout r h),
    unpack-layout r h range,
    same_refl (pf.hmac key (layout r)),
    same_ne r.active 0 a,
  )

  pub slice-store_self :
      (buf : Buf) (port active : ℕ) (bytes : List ℕ)
      → port < max_ports
      → length bytes ≡ 32
      → slice (store pf key buf port active bytes) (port * entry_size) entry_size
        ≡ bytes ++ pf.hmac key bytes
  unfolding store mark
  slice-store_self buf port active bytes lt h =
      let signed = bytes ++ pf.hmac key bytes in
      slice-set_byte_apart (write buf (port * entry_size) signed) (bitmap_at port) _
        (port * entry_size) entry_size (inl (omega arith))
      ∙ slice-write_of_length buf (port * entry_size) entry_size signed (signed_size bytes h)

  pub read-store_other :
      (buf : Buf) (port active : ℕ) (bytes : List ℕ) (q : ℕ)
      → port < max_ports
      → q < max_ports
      → q ≢ port
      → length bytes ≡ 32
      → read_port_entry pf key (store pf key buf port active bytes) q ≡ read_port_entry pf key buf q
  unfolding store mark read_port_entry
  read-store_other buf port active bytes q lt lq ne h =
      let signed = bytes ++ pf.hmac key bytes in
      let size = signed_size bytes h in
      ap (read_raw pf key) (
        slice-set_byte_apart (write buf (port * entry_size) signed) (bitmap_at port) _
          (q * entry_size) entry_size (inl (omega arith))
        ∙ slice-write_apart buf (port * entry_size) signed (q * entry_size) entry_size
            (rw size (entries_apart port q ne)))

  -- The bitmap byte `i` after a write.
  pub bitmap-store :
      (buf : Buf) (port active : ℕ) (bytes : List ℕ) (i : ℕ)
      → port < max_ports
      → length bytes ≡ 32
      → store pf key buf port active bytes (bitmap_offset + i) ≡ (
          if i == port / 8
          then (if active == 0
              then clear_bit (buf (bitmap_at port)) (port % 8)
              else set_bit (buf (bitmap_at port)) (port % 8))
          else buf (bitmap_offset + i))
  unfolding store mark set_byte
  bitmap-store buf port active bytes i lt h =
      let signed = bytes ++ pf.hmac key bytes in
      let size = signed_size bytes h in
      let here = write_apart buf (port * entry_size) signed (bitmap_at port) (inr (omega arith)) in
      let there =
        write_apart buf (port * entry_size) signed (bitmap_offset + i) (inr (omega arith)) in
      ground (arith, here, there)
