-- ===== src/Sniffer/Shm/Write.antt =====
-- `_write_port_entry` changes the contents of shared memory at one port.
use mathlib.Core.Path.{subst}
use port_sentinel.Sniffer.Bits.{
  test_bit, set_bit-lt, clear_bit-lt, test_bit-set_bit, test_bit-clear_bit,
}
use port_sentinel.Sniffer.Entry.{
  Platform, RawEntry, InRange, pack, layout, length-layout, max_ports, bitmap_size, bitmap_offset,
  in_range,
}
use port_sentinel.Sniffer.Memory.{Buf}
use port_sentinel.Sniffer.Shm.{
  PortEntry, bitmap_at, to_raw, store, write_port_entry, read_raw, read_port_entry,
}
use port_sentinel.Sniffer.Shm.Contents.{
  Holds, as_read, written, ip_size, read_raw-signed, slice-store_self, read-store_other,
  bitmap-store, bit_of_port,
}
use port_sentinel.Base.{
  ℕ, ◌+◌, ◌/◌, ◌%◌, ◌^◌, ◌<◌, ◌≡◌, ◌≢◌, refl, sym, ap, ◌∙◌, true, false, List, Option, some,
  is_some, length, if◌then◌else◌, ◌==◌, nat_keys, arith, Bool-cases, inl, inr, ◌++◌, same_refl,
}

module _ (pf : Platform) (key : List ℕ) (buf : Buf) (m : ℕ → Option PortEntry) (e : PortEntry)
    (holds : Holds pf key buf m) (lt : e.port < max_ports) (bytes : List ℕ)
    (size : length bytes ≡ 32) where
  after : Buf
  after = store pf key buf e.port e.active bytes

  old_byte : buf (bitmap_at e.port) < 256
  old_byte = holds.bytes (e.port / 8) (omega arith)

  after_bytes : (i : ℕ) → i < bitmap_size → after (bitmap_offset + i) < 256
  unfolding after
  after_bytes i lt_i =
      let k : e.port % 8 < 8 = omega arith in
      ground (
        arith,
        bitmap-store pf key buf e.port e.active bytes i lt size,
        set_bit-lt (buf (bitmap_at e.port)) (e.port % 8) old_byte k,
        clear_bit-lt (buf (bitmap_at e.port)) (e.port % 8) old_byte k,
        holds.bytes i lt_i,
      )

  -- The bit of the port itself.
  after_bit_self :
      test_bit (after (bitmap_at e.port)) (e.port % 8) ≡ (if e.active == 0 then false else true)
  unfolding after
  after_bit_self =
      let k : e.port % 8 < 8 = omega arith in
      ap (λ b. test_bit b (e.port % 8))
        (bitmap-store pf key buf e.port e.active bytes (e.port / 8) lt size)
      ∙ ground (
        arith,
        test_bit-set_bit (buf (bitmap_at e.port)) (e.port % 8) old_byte k (e.port % 8) k,
        test_bit-clear_bit (buf (bitmap_at e.port)) (e.port % 8) old_byte k (e.port % 8) k,
      )

  -- The bit of another port.
  after_bit_other :
      (q : ℕ)
      → q ≢ e.port
      → test_bit (after (bitmap_at q)) (q % 8) ≡ test_bit (buf (bitmap_at q)) (q % 8)
  unfolding after
  after_bit_other q ne =
      let k : e.port % 8 < 8 = omega arith in
      let j : q % 8 < 8 = omega arith in
      let at = bitmap-store pf key buf e.port e.active bytes (q / 8) lt size in
      elim (Bool-cases (q / 8 == e.port / 8)) [
        | inl same ↦
            let same_byte : q / 8 ≡ e.port / 8 = ground arith in
            let other_bit : q % 8 ≢ e.port % 8 = bit_of_port e.port q ne same_byte in
            let byte : buf (bitmap_at q) ≡ buf (bitmap_at e.port) =
              ap (λ n. buf (bitmap_offset + n)) same_byte in
            ap (λ b. test_bit b (q % 8)) at
            ∙ ground (
              arith,
              byte,
              test_bit-set_bit (buf (bitmap_at e.port)) (e.port % 8) old_byte k (q % 8) j,
              test_bit-clear_bit (buf (bitmap_at e.port)) (e.port % 8) old_byte k (q % 8) j,
            )
        | inr apart ↦ ap (λ b. test_bit b (q % 8)) (at ∙ rw apart)
      ]

  after_marked :
      (p : ℕ)
      → p < max_ports
      → test_bit (after (bitmap_at p)) (p % 8) ≡ is_some (written pf key m e p)
  after_marked p lp = elim (Bool-cases (p == e.port)) [
    | inl same ↦
        let eq : p ≡ e.port = ground arith in
        subst (λ q. test_bit (after (bitmap_at q)) (q % 8) ≡ is_some (written pf key m e q))
          (sym eq) (after_bit_self ∙ rw (same_refl e.port) (ground arith))
    | inr apart ↦
        let ne : p ≢ e.port = ground arith in rw (after_bit_other p ne, apart) (holds.marked p lp)
  ]

  -- What a reader gets of the written port.
  after_read_self :
      InRange (to_raw pf e)
      → bytes ≡ layout (to_raw pf e)
      → e.active ≢ 0
      → read_port_entry pf key after e.port ≡ some (as_read pf key e)
  unfolding after read_port_entry
  after_read_self range is_layout live =
      ap (read_raw pf key) (
        slice-store_self pf key buf e.port e.active bytes lt size
        ∙ ap (λ bs. bs ++ pf.hmac key bs) is_layout)
      ∙ read_raw-signed pf key (to_raw pf e) (ip_size pf key e) range (unfold to_raw in live)

  after_stored :
      InRange (to_raw pf e)
      → bytes ≡ layout (to_raw pf e)
      → (p : ℕ) (found : PortEntry) → p < max_ports
      → written pf key m e p ≡ some found
      → read_port_entry pf key after p ≡ some found
  after_stored range is_layout p found lp h = elim (Bool-cases (p == e.port)) [
    | inl same ↦
        let eq : p ≡ e.port = ground arith in
        let live : e.active ≢ 0 = ground arith in
        let entry : as_read pf key e ≡ found = ground arith in
        subst (λ q. read_port_entry pf key after q ≡ some found) (sym eq)
          (after_read_self range is_layout live ∙ ap some entry)
    | inr apart ↦
        let ne : p ≢ e.port = ground arith in
        unfold after in
        (read-store_other pf key buf e.port e.active bytes p lt lp ne size
          ∙ holds.stored p found lp (rw apart at h))
  ]

-- The ranges that a caller keeps to; the counters are reduced by the write itself.
pub record IsWritable (e : PortEntry) : Type 0 where
  pub port : e.port < max_ports
  pub pid : e.pid < 2 ^ 32
  pub protocol : e.protocol < 256
  pub active : e.active < 256
  pub risk_score : e.risk_score < 256

IsWritable-InRange : (pf : Platform) (e : PortEntry) → IsWritable e → InRange (to_raw pf e)
unfolding to_raw
IsWritable-InRange pf e h = record {
  port = h.port;
  bytes_in = omega arith;
  bytes_out = omega arith;
  pid = h.pid;
  protocol = h.protocol;
  active = h.active;
  risk_score = h.risk_score;
}

InRange-in_range : (r : RawEntry) → InRange r → in_range r ≡ true
unfolding in_range
InRange-in_range r h = ground arith

store-Holds :
    (pf : Platform) (key : List ℕ) (buf : Buf) (m : ℕ → Option PortEntry) (e : PortEntry)
    → Holds pf key buf m
    → InRange (to_raw pf e)
    → (bytes : List ℕ) → bytes ≡ layout (to_raw pf e)
    → Holds pf key (store pf key buf e.port e.active bytes) (written pf key m e)
unfolding after
store-Holds pf key buf m e holds range bytes is_layout =
    let lt : e.port < max_ports = (unfold to_raw in range.port) in
    let size : length bytes ≡ 32 = rw is_layout (length-layout (to_raw pf e) (ip_size pf key e)) in
    record {
      bytes = after_bytes pf key buf m e holds lt bytes size;
      marked = after_marked pf key buf m e holds lt bytes size;
      stored = after_stored pf key buf m e holds lt bytes size range is_layout;
    }

pack_of_InRange : (r : RawEntry) → InRange r → pack r ≡ some (layout r)
unfolding pack
pack_of_InRange r h = rw (InRange-in_range r h)

-- A write whose fields are in range does not raise. It leaves every other port as it was; the
-- written port has the new entry if `active` is not zero, and none otherwise.
pub write_port_entry-Holds :
    (pf : Platform) (key : List ℕ) (buf : Buf) (m : ℕ → Option PortEntry) (e : PortEntry)
    → Holds pf key buf m
    → IsWritable e
    → (buf' : Buf) × (write_port_entry pf key buf e ≡ some buf')
      × Holds pf key buf' (written pf key m e)
unfolding write_port_entry
write_port_entry-Holds pf key buf m e holds ok =
    let range = IsWritable-InRange pf e ok in
    (
      store pf key buf e.port e.active (layout (to_raw pf e)),
      rw (pack_of_InRange (to_raw pf e) range, write_port_entry),
      store-Holds pf key buf m e holds range (layout (to_raw pf e)) refl,
    )
