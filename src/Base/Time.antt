-- ===== src/Base/Time.antt =====
-- `time.time()`. From 2004 to 2038 a float64 number of seconds since 1970 is a multiple of 2^-22,
-- and sums, differences and comparisons of such numbers with whole seconds are exact: a time is a
-- number of ticks of 2^-22 seconds.
use Prim.Native.Nat.{ℕ, ◌*◌}

abbrev pub second : ℕ
second = 4_194_304

abbrev pub seconds : ℕ → ℕ
seconds n = n * second
