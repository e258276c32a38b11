-- ===== src/Sniffer/Entry.antt =====
-- The port entry: its layout, and the code that it signs.
use port_sentinel.Sniffer.Memory.{le_bytes, of_le, of_le-le_bytes}
use port_sentinel.Base.{
  ℕ, ◌*◌, ◌^◌, ◌<◌, ◌≡◌, refl, Bool, ◌&&◌, String, List, [], ◌∷◌, ◌++◌, Option, none, some, take,
  drop, length, ltb, if◌then◌else◌, arith, true, length-append,
}

-- `hmac` with SHA-256, and the address conversions of `socket`: the code needs the sizes of
-- what they return. `none` stands for `OSError` and `ValueError`.
pub record Platform : Type 0 where
  pub hmac : List ℕ → List ℕ → List ℕ
  pub inet_aton : String → Option (List ℕ)
  pub inet_ntoa : List ℕ → Option String
  pub digest_size : (key bytes : List ℕ) → length (hmac key bytes) ≡ 32
  pub address_size : (s : String) (bs : List ℕ) → inet_aton s ≡ some bs → length bs ≡ 4

abbrev pub max_ports : ℕ
max_ports = 65536

abbrev pub entry_size : ℕ
entry_size = 64

abbrev pub bitmap_size : ℕ
bitmap_size = 8192

abbrev pub bitmap_offset : ℕ
bitmap_offset = max_ports * entry_size

-- The values of one packed entry.
pub record RawEntry : Type 0 where
  pub port : ℕ
  pub bytes_in : ℕ
  pub bytes_out : ℕ
  pub pid : ℕ
  pub protocol : ℕ
  pub active : ℕ
  pub risk_score : ℕ
  pub ip_bytes : List ℕ

-- The ranges that `struct` checks for `<HQQI BBB 4s 3x`.
pub record InRange (e : RawEntry) : Type 0 where
  pub port : e.port < 2 ^ 16
  pub bytes_in : e.bytes_in < 2 ^ 64
  pub bytes_out : e.bytes_out < 2 ^ 64
  pub pid : e.pid < 2 ^ 32
  pub protocol : e.protocol < 2 ^ 8
  pub active : e.active < 2 ^ 8
  pub risk_score : e.risk_score < 2 ^ 8

unfoldable pub in_range : RawEntry → Bool
in_range e =
    ltb e.port (2 ^ 16)
    && ltb e.bytes_in (2 ^ 64)
    && ltb e.bytes_out (2 ^ 64)
    && ltb e.pid (2 ^ 32)
    && ltb e.protocol (2 ^ 8)
    && ltb e.active (2 ^ 8)
    && ltb e.risk_score (2 ^ 8)

-- `4s` cuts or pads with zeros.
abbrev pub four : List ℕ → List ℕ
four bs = take 4 (bs ++ (0 ∷ 0 ∷ 0 ∷ 0 ∷ []))

unfoldable pub layout : RawEntry → List ℕ
layout e =
    le_bytes 2 e.port
    ++ (le_bytes 8 e.bytes_in
        ++ (le_bytes 8 e.bytes_out
            ++ (le_bytes 4 e.pid
                ++ (le_bytes 1 e.protocol
                    ++ (le_bytes 1 e.active
                        ++ (le_bytes 1 e.risk_score ++ (four e.ip_bytes ++ (0 ∷ 0 ∷ 0 ∷ []))))))))

-- `PORT_ENTRY_STRUCT.pack`; `none` is `struct.error`.
unfoldable pub pack : RawEntry → Option (List ℕ)
pack e = if in_range e then some (layout e) else none

-- `PORT_ENTRY_STRUCT.unpack` of 32 bytes.
unfoldable pub unpack : List ℕ → RawEntry
unpack bytes = record {
  port = of_le (take 2 bytes);
  bytes_in = of_le (take 8 (drop 2 bytes));
  bytes_out = of_le (take 8 (drop 10 bytes));
  pid = of_le (take 4 (drop 18 bytes));
  protocol = of_le (take 1 (drop 22 bytes));
  active = of_le (take 1 (drop 23 bytes));
  risk_score = of_le (take 1 (drop 24 bytes));
  ip_bytes = take 4 (drop 25 bytes);
}

pub in_range-InRange : (e : RawEntry) → in_range e ≡ true → InRange e
unfolding in_range
in_range-InRange e h = ground arith

take-four :
    (bs : List ℕ) → length bs ≡ 4 → (take 4 (four bs ++ (0 ∷ 0 ∷ 0 ∷ [])) ≡ bs) × (four bs ≡ bs)
take-four (a ∷ b ∷ c ∷ d ∷ []) h = (refl, refl)
take-four _ h = absurd (omega arith)

-- An entry takes 32 bytes.
pub length-layout : (e : RawEntry) → length e.ip_bytes ≡ 4 → length (layout e) ≡ 32
unfolding layout le_bytes
length-layout e h =
    rw ((take-four e.ip_bytes h).1) (omega (arith, length-append e.ip_bytes (0 ∷ 0 ∷ 0 ∷ [])))

pub unpack-layout : (e : RawEntry) → length e.ip_bytes ≡ 4 → InRange e → unpack (layout e) ≡ e
unfolding layout unpack le_bytes
unpack-layout e h r = λ i. record {
  port = of_le-le_bytes 2 e.port r.port i;
  bytes_in = of_le-le_bytes 8 e.bytes_in r.bytes_in i;
  bytes_out = of_le-le_bytes 8 e.bytes_out r.bytes_out i;
  pid = of_le-le_bytes 4 e.pid r.pid i;
  protocol = of_le-le_bytes 1 e.protocol r.protocol i;
  active = of_le-le_bytes 1 e.active r.active i;
  risk_score = of_le-le_bytes 1 e.risk_score r.risk_score i;
  ip_bytes = (take-four e.ip_bytes h).0 i;
}
