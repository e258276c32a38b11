-- ===== src/Sniffer/Shm.antt =====
-- `_write_port_entry`, `read_port_entry` and `read_all_active_ports`.
pub mod Contents
pub mod Write
pub mod Scan
use port_sentinel.Sniffer.Bits.{set_bit, clear_bit, test_bit}
use port_sentinel.Sniffer.Entry.{
  Platform, RawEntry, pack, unpack, max_ports, entry_size, bitmap_size, bitmap_offset,
}
use port_sentinel.Sniffer.Memory.{Buf, set_byte, slice, write}
use port_sentinel.Base.{
  ℕ, zero, suc, ◌+◌, ◌*◌, ◌/◌, ◌%◌, ◌^◌, Bool, not, String, List, [], ◌∷◌, ◌++◌, Option, none, some,
  take, drop, or_else, if◌then◌else◌, ◌==◌, nat_keys, list_keys,
}

-- What a reader gets of one port.
pub record PortEntry : Type 0 where
  pub port : ℕ
  pub bytes_in : ℕ
  pub bytes_out : ℕ
  pub pid : ℕ
  pub protocol : ℕ
  pub active : ℕ
  pub risk_score : ℕ
  pub remote_ip : String

abbrev pub bitmap_at : ℕ → ℕ
bitmap_at port = bitmap_offset + port / 8

-- The bitmap update at the end of `_write_port_entry`.
unfoldable pub mark : Buf → ℕ → ℕ → Buf
mark buf port active = set_byte buf (bitmap_at port) (
    if active == 0
    then clear_bit (buf (bitmap_at port)) (port % 8)
    else set_bit (buf (bitmap_at port)) (port % 8))

module _ (pf : Platform) where
  unfoldable pub to_raw : PortEntry → RawEntry
  to_raw e = record {
    port = e.port;
    bytes_in = e.bytes_in % 2 ^ 64;
    bytes_out = e.bytes_out % 2 ^ 64;
    pid = e.pid;
    protocol = e.protocol;
    active = e.active;
    risk_score = e.risk_score;
    ip_bytes = or_else (pf.inet_aton e.remote_ip) (0 ∷ 0 ∷ 0 ∷ 0 ∷ []);
  }

  -- The bytes of an entry with its signature, written at the port's place.
  unfoldable pub store : List ℕ → Buf → ℕ → ℕ → List ℕ → Buf
  store key buf port active bytes =
      mark (write buf (port * entry_size) (bytes ++ pf.hmac key bytes)) port active

  -- `none` is the `struct.error` of a field out of range; nothing is written then.
  unfoldable pub write_port_entry : List ℕ → Buf → PortEntry → Option Buf
  write_port_entry key buf e = elim (pack (to_raw e)) [
    | none ↦ none
    | some bytes ↦ some (store key buf e.port e.active bytes)
  ]

  unfoldable pub of_raw : RawEntry → PortEntry
  of_raw r = record {
    port = r.port;
    bytes_in = r.bytes_in;
    bytes_out = r.bytes_out;
    pid = r.pid;
    protocol = r.protocol;
    active = r.active;
    risk_score = r.risk_score;
    remote_ip = or_else (pf.inet_ntoa r.ip_bytes) "0.0.0.0";
  }

  unfoldable pub read_raw : List ℕ → List ℕ → Option PortEntry
  read_raw key raw =
      let bytes = take 32 raw in
      let entry = unpack bytes in
      if not (drop 32 raw == pf.hmac key bytes)
      then none
      else if entry.active == 0
      then none
      else some (of_raw entry)

  unfoldable pub read_port_entry : List ℕ → Buf → ℕ → Option PortEntry
  read_port_entry key buf port = read_raw key (slice buf (port * entry_size) entry_size)

  abbrev pub to_list : Option PortEntry → List PortEntry
  to_list none = []
  to_list (some e) = e ∷ []

  -- The `for bit in range(8)` loop, from a bit on.
  unfoldable pub scan_bits : List ℕ → Buf → ℕ → ℕ → ℕ → List PortEntry
  scan_bits key buf i bit zero = []
  scan_bits key buf i bit (suc n) =
      (if test_bit (buf (bitmap_offset + i)) bit
        then to_list (read_port_entry key buf (i * 8 + bit))
        else [])
      ++ scan_bits key buf i (suc bit) n

  -- The `for i in range(BITMAP_SIZE)` loop, from a byte on.
  unfoldable pub scan_bytes : List ℕ → Buf → ℕ → ℕ → List PortEntry
  scan_bytes key buf i zero = []
  scan_bytes key buf i (suc n) =
      (if buf (bitmap_offset + i) == 0 then [] else scan_bits key buf i 0 8)
      ++ scan_bytes key buf (suc i) n

  unfoldable pub read_all_active_ports : List ℕ → Buf → List PortEntry
  read_all_active_ports key buf = scan_bytes key buf 0 bitmap_size
