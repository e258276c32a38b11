-- ===== src/Base/Floats.antt =====
-- Python's float64 as an interface: the operations that the program applies to traffic rates.
use Prim.Native.Nat.{ℕ, ◌+◌, ◌/◌}
use mathlib.Core.Bool.{Bool}
use port_sentinel.Base.Tests.{leb}

pub record Floats (F : Type 0) : Type 0 where
  -- `0.0`
  pub zero : F
  pub add : F → F → F
  -- `(delta / 1024.0) / elapsed`, where `elapsed` is given in ticks
  pub rate : ℕ → ℕ → F
  -- `round(x, 2)`
  pub round2 : F → F
  -- `a <= b`
  pub le : F → F → Bool

-- Whole numbers in place of floats, for tests.
instance abbrev pub whole : Floats ℕ
whole = record {
  zero = 0;
  add = ◌+◌;
  rate = λ d t. (d / 1024) / (t / 4_194_304);
  round2 = λ x. x;
  le = leb;
}
