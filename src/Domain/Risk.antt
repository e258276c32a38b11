-- ===== src/Domain/Risk.antt =====
-- backend/domain/value_objects/network.py: protocols, port numbers and risk scores.
use port_sentinel.Base.{
  ℕ, String, Bool, ◌&&◌, leb, min, if◌then◌else◌, ◌==◌, nat_keys, text_keys, ◌≤◌, arith, ◌≡◌,
  Bool-cases, inl, inr, refl,
}
use port_sentinel.Base.Result.{Result, ok, raise}

-- Python's `int` as it reaches a constructor: `negative n` is -(n + 1).
pub data Integer : Type 0 where
  natural : ℕ → Integer
  negative : ℕ → Integer

pub data Protocol : Type 0 where
  tcp udp : Protocol

unfoldable pub from_int : Integer → Protocol
from_int (natural n) = if n == 1 then udp else tcp
from_int (negative n) = tcp

pub data ValueError : Type 0 where
  value_error : ValueError

pub record PortNumber : Type 0 where
  pub value : ℕ

unfoldable pub make_port : Integer → Result ValueError PortNumber
make_port (natural n) =
    if leb 1 n && leb n 65535 then ok (record { value = n }) else raise value_error
make_port (negative n) = raise value_error

pub record RiskScore : Type 0 where
  pub value : ℕ

-- `max(0, min(10, value))`
unfoldable pub make_risk : Integer → RiskScore
make_risk (natural n) = record { value = min 10 n }
make_risk (negative n) = record { value = 0 }

unfoldable pub is_critical : RiskScore → Bool
is_critical r = leb 10 r.value

unfoldable pub is_high : RiskScore → Bool
is_high r = leb 7 r.value

unfoldable pub is_medium : RiskScore → Bool
is_medium r = leb 5 r.value

unfoldable pub label : RiskScore → String
unfolding is_critical is_high is_medium
label r =
    if is_critical r
    then "CRITICAL"
    else if is_high r
    then "HIGH"
    else if is_medium r
    then "MEDIUM"
    else "LOW"

-- The number of a label in order of severity.
abbrev pub severity : String → ℕ
severity s =
    if s == "CRITICAL" then 3 else if s == "HIGH" then 2 else if s == "MEDIUM" then 1 else 0

severity-label :
    (r : RiskScore)
    → severity (label r)
      ≡ (if leb 10 r.value then 3 else if leb 7 r.value then 2 else if leb 5 r.value then 1 else 0)
unfolding label is_critical is_high is_medium
severity-label r = elim (Bool-cases (leb 10 r.value)) [
  | inl c ↦ rw c refl
  | inr c ↦ elim (Bool-cases (leb 7 r.value)) [
    | inl h ↦ rw (c, h) refl
    | inr h ↦ elim (Bool-cases (leb 5 r.value)) [
      | inl m ↦ rw (c, h, m) refl
      | inr m ↦ rw (c, h, m) refl
    ]
  ]
]

-- A higher score never has a less severe label.
pub label_monotone : (a b : RiskScore) → a.value ≤ b.value → severity (label a) ≤ severity (label b)
label_monotone a b h = ground (arith, severity-label a, severity-label b)
