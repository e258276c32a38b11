-- ===== src/Bridges/Darwin/Printed.antt =====
-- The port of a rule is read back from its text.
use port_sentinel.Base.{
  ℕ, List, ◌∷◌, ◌≡◌, ◌++◌, some, none, false, if◌then◌else◌, [], arith, Bool-cases, drop, refl, inl,
  ◌*◌, inr, ◌+◌, ◌-◌, String, Bool, true, ap, ◌∙◌, sym, append-nil, append_assoc, Option, ◌<◌,
}
use port_sentinel.Base.Words.{codes, skip_spaces, is_space, is_digit, starts_with, strip, flip}
use port_sentinel.Base.Text.Digits.{
  read_digits, read_digits-show, first_digit-show, last_digit-show,
}
use port_sentinel.Base.Text.{show}
use port_sentinel.Bridges.Darwin.Parsing.{
  pf_rule, all_spaces, end_of_rule, digits_from, spaces_then, match_port, rule_port,
}

-- A character that is no space and no digit ends no rule.
abbrev IsOther : ℕ → Type 0
IsOther x = (is_space x ≡ false) × (is_digit x ≡ false)

all_spaces-other : (q : List ℕ) (x : ℕ) (r : List ℕ) → IsOther x → all_spaces (q ++ x ∷ r) ≡ false
unfolding all_spaces
all_spaces-other [] x r h = rw (h.0) refl
all_spaces-other (c ∷ q) x r h = rw (all_spaces-other q x r h) (ground arith)

end_of_rule-other :
    (n : ℕ) (q : List ℕ) (x : ℕ) (r : List ℕ)
    → IsOther x
    → end_of_rule (read_digits n (q ++ x ∷ r)) ≡ none
unfolding read_digits
end_of_rule-other n [] x r h = rw (h.1, all_spaces-other [] x r h) refl
end_of_rule-other n (c ∷ q) x r h = elim (Bool-cases (is_digit c)) [
  | inl y ↦ rw y (end_of_rule-other (n * 10 + (c - 48)) q x r h)
  | inr m ↦ rw (m, all_spaces-other (c ∷ q) x r h) refl
]

digits_from-other : (q : List ℕ) (x : ℕ) (r : List ℕ) → IsOther x → digits_from (q ++ x ∷ r) ≡ none
unfolding digits_from
digits_from-other [] x r h = rw (h.1) refl
digits_from-other (c ∷ q) x r h = elim (Bool-cases (is_digit c)) [
  | inl y ↦ rw (y, end_of_rule-other 0 (c ∷ q) x r h) refl
  | inr m ↦ rw m refl
]

skipped-other :
    (q : List ℕ) (x : ℕ) (r : List ℕ) → IsOther x → digits_from (skip_spaces (q ++ x ∷ r)) ≡ none
unfolding skip_spaces
skipped-other [] x r h = rw (h.0) (digits_from-other [] x r h)
skipped-other (c ∷ q) x r h = elim (Bool-cases (is_space c)) [
  | inl y ↦ rw y (skipped-other q x r h)
  | inr m ↦ rw m (digits_from-other (c ∷ q) x r h)
]

spaces_then-other : (q : List ℕ) (x : ℕ) (r : List ℕ) → IsOther x → spaces_then (q ++ x ∷ r) ≡ none
unfolding spaces_then
spaces_then-other [] x r h = rw (h.0) refl
spaces_then-other (c ∷ q) x r h = elim (Bool-cases (is_space c)) [
  | inl y ↦ rw (y, skipped-other q x r h) refl
  | inr m ↦ rw m refl
]

match_port-none : (s : List ℕ) → spaces_then (drop 4 s) ≡ none → match_port s ≡ none
unfolding match_port
match_port-none s h = rw h (either (starts_with (codes "port") s))
  where
    either : (b : Bool) → ◌≡◌ {A = Option ℕ} (if b then none else none) none
    either true = refl
    either false = refl

-- A match cannot start before the word "port" that it is to end with.
match_port-before :
    (c : ℕ) (q rest : List ℕ) → match_port (c ∷ (q ++ (codes "port" ++ rest))) ≡ none
unfolding codes
match_port-before c [] rest = match_port-none _ (spaces_then-other [] 116 rest (refl, refl))
match_port-before c (a ∷ []) rest =
    match_port-none _ (spaces_then-other [] 114 (116 ∷ rest) (refl, refl))
match_port-before c (a ∷ b ∷ []) rest =
    match_port-none _ (spaces_then-other [] 111 (114 ∷ 116 ∷ rest) (refl, refl))
match_port-before c (a ∷ b ∷ d ∷ q) rest =
    match_port-none _ (spaces_then-other q 112 (111 ∷ 114 ∷ 116 ∷ rest) (refl, refl))

rule_port-last :
    (q rest : List ℕ) (n : ℕ)
    → match_port (codes "port" ++ rest) ≡ some n
    → rule_port (q ++ (codes "port" ++ rest)) ≡ some n
unfolding rule_port codes
rule_port-last [] rest n h = rw h refl
rule_port-last (c ∷ q) rest n h = rw (match_port-before c q rest) (rule_port-last q rest n h)

match_port-show : (n : ℕ) → match_port (codes "port" ++ 32 ∷ codes (show n)) ≡ some n
unfolding match_port codes spaces_then skip_spaces digits_from all_spaces
match_port-show n =
    let (d, q, e, h) = first_digit-show n in
    let first : is_digit (48 + d) ≡ true = ground arith in
    let solid : is_space (48 + d) ≡ false = ground arith in
    let whole : read_digits 0 ((48 + d) ∷ q) ≡ (n, []) =
      ap (read_digits 0) (sym e ∙ sym (append-nil (codes (show n))))
      ∙ read_digits-show n []
      ∙ (unfold read_digits in refl) in
    rw (e, solid, first, whole) refl

-- Everything in a rule before the word "port".
abbrev rule_head : String → String → List ℕ
rule_head interface protocol =
    (codes "block drop on " ++ codes interface ++ codes " proto " ++ codes protocol)
    ++ codes " from any to any "

pf_rule-split :
    (interface protocol : String) (port : ℕ)
    → pf_rule interface protocol port
      ≡ rule_head interface protocol ++ (codes "port" ++ 32 ∷ codes (show port))
unfolding pf_rule codes
pf_rule-split interface protocol port =
    let x = codes "block drop on " ++ codes interface ++ codes " proto " ++ codes protocol in
    append_assoc x (codes " from any to any port ") (codes (show port))
    ∙ sym (append_assoc x (codes " from any to any ") (codes "port" ++ 32 ∷ codes (show port)))

pub rule_port-pf_rule :
    (interface protocol : String) (port : ℕ)
    → rule_port (pf_rule interface protocol port) ≡ some port
rule_port-pf_rule interface protocol port =
    ap rule_port (pf_rule-split interface protocol port)
    ∙ rule_port-last (rule_head interface protocol) (32 ∷ codes (show port)) port
        (match_port-show port)

flip-append_last : (q : List ℕ) (d : ℕ) (acc : List ℕ) → flip (q ++ d ∷ []) acc ≡ d ∷ flip q acc
flip-append_last [] d acc = refl
flip-append_last (c ∷ q) d acc = flip-append_last q d (c ∷ acc)

flip-flip : (q a b : List ℕ) → flip (flip q a) b ≡ flip a (q ++ b)
flip-flip [] a b = refl
flip-flip (c ∷ q) a b = flip-flip q (c ∷ a) b

-- A text with no space at either end is its own `strip()`.
strip-solid :
    (c : ℕ) (q : List ℕ) (d : ℕ)
    → is_space c ≡ false
    → is_space d ≡ false
    → strip (c ∷ (q ++ d ∷ [])) ≡ c ∷ (q ++ d ∷ [])
unfolding strip skip_spaces
strip-solid c q d h k = rw (h, flip-append_last q d (c ∷ []), k) (flip-flip q (c ∷ []) (d ∷ []))

pf_rule_ends :
    (interface protocol : String) (port : ℕ)
    → (q : List ℕ) × (d : ℕ) × (pf_rule interface protocol port ≡ 98 ∷ (q ++ (48 + d) ∷ []))
      × (d < 10)
unfolding pf_rule codes
pf_rule_ends interface protocol port =
    let (q, d, e, h) = last_digit-show port in
    let x =
      codes "block drop on "
      ++ codes interface
      ++ codes " proto "
      ++ codes protocol
      ++ codes " from any to any port " in
    (drop 1 x ++ q, d, ap (λ s. x ++ s) e ∙ sym (append_assoc x q ((48 + d) ∷ [])), h)

pub strip-pf_rule :
    (interface protocol : String) (port : ℕ)
    → strip (pf_rule interface protocol port) ≡ pf_rule interface protocol port
strip-pf_rule interface protocol port =
    let (q, d, e, h) = pf_rule_ends interface protocol port in
    let solid : is_space (48 + d) ≡ false = ground arith in
    ap strip e ∙ strip-solid 98 q (48 + d) refl solid ∙ sym e
