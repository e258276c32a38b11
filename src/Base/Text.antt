-- ===== src/Base/Text.antt =====
-- `str(n)`, `s.lower()`, `s.upper()` and f-strings.
pub mod Digits
use Prim.Native.Char.{code}
use Prim.Native.Nat.{ℕ, zero, suc, ◌+◌, ◌-◌, ◌/◌, ◌%◌}
use Prim.Native.String.{String, ◌++◌}
use mathlib.Core.Bool.{◌&&◌}
use mathlib.Core.List.{List, [], ◌∷◌}
use port_sentinel.Base.Tests.{ltb, leb, if◌then◌else◌}
use port_sentinel.Base.Equality.{◌==◌, nat_keys}

digit : ℕ → String
digit d =
    if d == 0
    then "0"
    else if d == 1
    then "1"
    else if d == 2
    then "2"
    else if d == 3
    then "3"
    else if d == 4
    then "4"
    else if d == 5
    then "5"
    else if d == 6
    then "6"
    else if d == 7
    then "7"
    else if d == 8
    then "8"
    else "9"

-- The digits of `n`, with fuel for one digit each.
show_fuel : ℕ → ℕ → String
show_fuel zero n = ""
show_fuel (suc f) n =
    let rest = show_fuel f (n / 10) in if ltb n 10 then digit n else rest ++ digit (n % 10)

-- `str(n)`: a number has no more digits than one more than itself.
unfoldable pub show : ℕ → String
unfolding digit show_fuel
show n = show_fuel (suc n) n

-- The parts of an f-string, one after another.
unfoldable pub concat : List String → String
concat [] = ""
concat (s ∷ rest) = s ++ concat rest

-- `s.lower()` as code points, for ASCII.
abbrev lower_code : ℕ → ℕ
lower_code c = if leb 65 c && leb c 90 then c + 32 else c

unfoldable pub lower : String → List ℕ
lower String.[] = []
lower (String.◌∷◌ c s) = lower_code (code c) ∷ lower s

-- `s.upper()` as code points, for ASCII.
abbrev upper_code : ℕ → ℕ
upper_code c = if leb 97 c && leb c 122 then c - 32 else c

unfoldable pub upper : String → List ℕ
upper String.[] = []
upper (String.◌∷◌ c s) = upper_code (code c) ∷ upper s
