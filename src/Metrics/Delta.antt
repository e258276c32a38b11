-- ===== src/Metrics/Delta.antt =====
-- `ByteSnapshot` and `PortMetrics`: rates from consecutive byte counters.
pub mod Wrap
use port_sentinel.Base.Dict.{Dict, get, put, remove}
use port_sentinel.Base.Floats.{Floats}
use port_sentinel.Base.{
  ℕ, ◌+◌, ◌-◌, ◌^◌, Bool, List, [], Option, none, some, leb, if◌then◌else◌, nat_keys, or_else,
}

pub record ByteSnapshot : Type 0 where
  pub timestamp : ℕ
  pub bytes_in : ℕ
  pub bytes_out : ℕ

pub record PortMetrics : Type 0 where
  pub last_snapshot : Dict ℕ ByteSnapshot

abbrev pub new_metrics : PortMetrics
new_metrics = record { last_snapshot = [] }

-- The counters come from uint64 fields, so `2**64 - previous` is not negative.
unfoldable pub safe_delta : ℕ → ℕ → ℕ
safe_delta current previous =
    if leb previous current then current - previous else current + (2 ^ 64 - previous)

module _ {F : Type 0} ⦃fl : Floats F⦄ where
  -- The result from the previous snapshot of the port, at time `now`.
  unfoldable pub rates : Option ByteSnapshot → ℕ → ℕ → ℕ → F × F
  rates none bytes_in bytes_out now = (fl.zero, fl.zero)
  rates (some prev) bytes_in bytes_out now =
      if leb now prev.timestamp then (fl.zero, fl.zero) else (
        fl.round2 (fl.rate (safe_delta bytes_in prev.bytes_in) (now - prev.timestamp)),
        fl.round2 (fl.rate (safe_delta bytes_out prev.bytes_out) (now - prev.timestamp)),
      )

  -- `reading` is what `time.time()` returns if it is called.
  unfoldable pub calculate_delta : PortMetrics → ℕ → ℕ → ℕ → Option ℕ → ℕ → (F × F) × PortMetrics
  calculate_delta m port bytes_in bytes_out current_time reading =
      let now = or_else current_time reading in
      (
        rates (get m.last_snapshot port) bytes_in bytes_out now,
        record m {
          last_snapshot =
              put m.last_snapshot port
                (record { timestamp = now; bytes_in = bytes_in; bytes_out = bytes_out });
        },
      )

unfoldable pub reset : PortMetrics → Option ℕ → PortMetrics
reset m (some port) = record m { last_snapshot = remove m.last_snapshot port }
reset m none = record m { last_snapshot = [] }
