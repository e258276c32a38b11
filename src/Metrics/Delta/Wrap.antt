-- ===== src/Metrics/Delta/Wrap.antt =====
-- What `PortMetrics` computes from wrapping 64-bit counters.
use port_sentinel.Base.Dict.{get-put}
use port_sentinel.Base.Floats.{Floats}
use port_sentinel.Base.{
  ℕ, ◌+◌, ◌-◌, ◌%◌, ◌^◌, ◌<◌, ◌≡◌, ◌≢◌, some, leb, if◌then◌else◌, nat_keys, same_ne, arith, sym,
  same_refl,
}
use port_sentinel.Metrics.Delta.{ByteSnapshot, PortMetrics, safe_delta, rates, calculate_delta}

-- The delta of two readings of a 64-bit counter is the number below 2^64 of bytes counted
-- between them, modulo 2^64, also where the counter has wrapped.
pub safe_delta_wraps :
    (previous count : ℕ)
    → previous < 2 ^ 64
    → count < 2 ^ 64
    → safe_delta ((previous + count) % 2 ^ 64) previous ≡ count
unfolding safe_delta
safe_delta_wraps previous count h k = ground arith

-- The state after one reading of a port.
abbrev pub observe : (F : Type 0) ⦃fl : Floats F⦄ → PortMetrics → ℕ → ByteSnapshot → PortMetrics
observe F m port s =
    (calculate_delta {F = F} m port s.bytes_in s.bytes_out (some s.timestamp) s.timestamp).1

module _ {F : Type 0} ⦃fl : Floats F⦄ where
  -- Of two readings of one port, with a reading of another port between them, the second gives
  -- the rates of the bytes counted since the first, modulo 2^64 and whatever the other reading; if
  -- the time given with it is not later than that of the first, it gives zero rates.
  pub delta_of_two :
      (m : PortMetrics) (p q : ℕ) (first between : ByteSnapshot) (di dout now reading : ℕ)
      → p ≢ q
      → first.bytes_in < 2 ^ 64
      → first.bytes_out < 2 ^ 64
      → di < 2 ^ 64
      → dout < 2 ^ 64
      → (calculate_delta {F = F}
          (observe F (observe F m p first) q between)
          p
          ((first.bytes_in + di) % 2 ^ 64)
          ((first.bytes_out + dout) % 2 ^ 64)
          (some now)
          reading).0
        ≡ (if leb now first.timestamp then (fl.zero, fl.zero) else (
          fl.round2 (fl.rate di (now - first.timestamp)),
          fl.round2 (fl.rate dout (now - first.timestamp)),
        ))
  unfolding calculate_delta rates
  delta_of_two m p q first between di dout now reading n hi ho hdi hdo = simp (
    get-put,
    same_ne q p (λ e. n (sym e)),
    same_refl p,
    safe_delta_wraps first.bytes_in di hi hdi,
    safe_delta_wraps first.bytes_out dout ho hdo,
  )
