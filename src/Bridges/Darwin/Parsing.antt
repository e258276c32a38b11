-- ===== src/Bridges/Darwin/Parsing.antt =====
-- The text of a rule, and `re.search(r"port\s+(\d+)\s*$", line)` on it, as code points.
use port_sentinel.Base.{
  ℕ, Option, String, List, none, ◌++◌, Bool, some, if◌then◌else◌, ◌∷◌, drop, true, ◌&&◌, [],
}
use port_sentinel.Base.Words.{codes, skip_spaces, is_space, is_digit, starts_with}
use port_sentinel.Base.Text.Digits.{read_digits}
use port_sentinel.Base.Text.{show}

unfoldable pub pf_rule : String → String → ℕ → List ℕ
pf_rule interface protocol port =
    codes "block drop on "
    ++ codes interface
    ++ codes " proto "
    ++ codes protocol
    ++ codes " from any to any port "
    ++ codes (show port)

-- `\s*$`
unfoldable pub all_spaces : List ℕ → Bool
all_spaces [] = true
all_spaces (c ∷ s) = is_space c && all_spaces s

abbrev pub end_of_rule : ℕ × List ℕ → Option ℕ
end_of_rule (n, rest) = if all_spaces rest then some n else none

-- `(\d+)\s*$`
unfoldable pub digits_from : List ℕ → Option ℕ
digits_from [] = none
digits_from (c ∷ s) = if is_digit c then end_of_rule (read_digits 0 (c ∷ s)) else none

-- `\s+(\d+)\s*$`
unfoldable pub spaces_then : List ℕ → Option ℕ
spaces_then [] = none
spaces_then (c ∷ s) = if is_space c then digits_from (skip_spaces s) else none

unfoldable pub match_port : List ℕ → Option ℕ
match_port s = if starts_with (codes "port") s then spaces_then (drop 4 s) else none

abbrev pub first_some : Option ℕ → Option ℕ → Option ℕ
first_some none later = later
first_some (some n) later = some n

-- The search goes from left to right.
unfoldable pub rule_port : List ℕ → Option ℕ
rule_port [] = none
rule_port (c ∷ s) = first_some (match_port (c ∷ s)) (rule_port s)
