-- ===== src/Base/Words.antt =====
-- `strip`, `split`, `isdigit` and `int` on texts as code points, for ASCII.
use Prim.Native.Char.{code}
use Prim.Native.Nat.{ℕ, ◌+◌, ◌*◌, ◌-◌}
use Prim.Native.String.{String}
use mathlib.Core.Bool.{Bool, true, false, ◌&&◌, ◌||◌}
use mathlib.Core.List.{List, [], ◌∷◌}
use mathlib.Core.Option.{Option, none, some}
use port_sentinel.Base.Tests.{leb, if◌then◌else◌}
use port_sentinel.Base.Equality.{◌==◌, nat_keys}

unfoldable pub codes : String → List ℕ
codes String.[] = []
codes (String.◌∷◌ c s) = code c ∷ codes s

abbrev pub is_space : ℕ → Bool
is_space c = c == 32 || leb 9 c && leb c 13 || leb 28 c && leb c 31

unfoldable pub skip_spaces : List ℕ → List ℕ
skip_spaces [] = []
skip_spaces (c ∷ s) = if is_space c then skip_spaces s else c ∷ s

abbrev pub flip {ℓ} : {A : Type ℓ} → List A → List A → List A
flip [] ys = ys
flip (x ∷ xs) ys = flip xs (x ∷ ys)

-- `s.strip()`
unfoldable pub strip : List ℕ → List ℕ
strip s = flip (skip_spaces (flip (skip_spaces s) [])) []

-- `s.split("\n")`, with the line before a line end put before the lines after it.
abbrev put_code : ℕ → List (List ℕ) → List (List ℕ)
put_code c [] = (c ∷ []) ∷ []
put_code c (line ∷ rest) = (c ∷ line) ∷ rest

unfoldable pub split_lines : List ℕ → List (List ℕ)
split_lines [] = [] ∷ []
split_lines (c ∷ s) = let rest = split_lines s in if c == 10 then [] ∷ rest else put_code c rest

abbrev pub starts_with : List ℕ → List ℕ → Bool
starts_with [] s = true
starts_with (c ∷ prefix) [] = false
starts_with (c ∷ prefix) (d ∷ s) = c == d && starts_with prefix s

-- `part in s`
unfoldable pub occurs_in : List ℕ → List ℕ → Bool
occurs_in part [] = starts_with part []
occurs_in part (c ∷ s) = starts_with part (c ∷ s) || occurs_in part s

abbrev pub up_to_space : List ℕ → List ℕ
up_to_space [] = []
up_to_space (c ∷ s) = if is_space c then [] else c ∷ up_to_space s

-- `s.split()[0]`, and an empty text where there is no word.
unfoldable pub first_word : List ℕ → List ℕ
first_word s = up_to_space (skip_spaces s)

abbrev pub is_digit : ℕ → Bool
is_digit c = leb 48 c && leb c 57

abbrev pub read_from : ℕ → List ℕ → Option ℕ
read_from n [] = some n
read_from n (c ∷ s) = if is_digit c then read_from (n * 10 + (c - 48)) s else none

-- `int(s)` if `s.isdigit()`; an empty text is not.
unfoldable pub read_number : List ℕ → Option ℕ
read_number [] = none
read_number (c ∷ s) = read_from 0 (c ∷ s)
