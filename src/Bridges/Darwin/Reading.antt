-- ===== src/Bridges/Darwin/Reading.antt =====
-- The rules that the program reads from its file are those it wrote there.
use mathlib.Core.Option.{some-injective}
use port_sentinel.Base.{
  none, All, ℕ, Option, List, ◌≡◌, some, ◌++◌, nat_keys, ◌∷◌, sym, same_ne, append-nil, Bool-cases,
  [], same_refl, All-append, refl, ◌==◌, ap, ◌∙◌, ◌≢◌, inl, append_assoc, inr, text_keys,
}
use port_sentinel.Base.Dict.{Dict, get, put, values, IsDict, Absent}
use port_sentinel.Base.Words.{strip}
use port_sentinel.Bridges.Darwin.Parsing.{rule_port}
use port_sentinel.Bridges.Darwin.{to_end, PfRules, file_lines, load_line, load_rules, recalled}

abbrev pub IsRule : ℕ × List ℕ → Type 0
IsRule (port, line) = (rule_port (strip line) ≡ some port) × (strip line ≡ line)

abbrev Rules : Type 0
Rules = Dict ℕ (List ℕ)

-- The file has the rules that are in memory.
pub record IsSynced (p : PfRules) : Type 0 where
  pub distinct : IsDict p.active
  pub rules : All IsRule p.active
  pub same : file_lines p.file ≡ values p.active

put-Absent : (d : Rules) (k : ℕ) (v : List ℕ) → Absent k d → put d k v ≡ d ++ (k, v) ∷ []
unfolding put
put-Absent [] k v h = refl
put-Absent ((j, w) ∷ d) k v h = rw (same_ne j k h.0) (ap (◌∷◌ (j, w)) (put-Absent d k v h.1))

put-same : (d : Rules) (k : ℕ) (v : List ℕ) → get d k ≡ some v → put d k v ≡ d
unfolding put get
put-same [] k v h = cc
put-same ((j, w) ∷ d) k v h = elim (Bool-cases (j == k)) [
  | inl y ↦ let e : w ≡ v = some-injective w v (rw y at h) in rw y (ap (λ u. (j, u) ∷ d) (sym e))
  | inr n ↦ rw n (ap (◌∷◌ (j, w)) (put-same d k v (rw n at h)))
]

Absent-grow :
    (acc l : Rules) (k : ℕ) (v : List ℕ)
    → Absent k l
    → All (λ e. Absent e.0 acc) l
    → All (λ e. Absent e.0 (acc ++ (k, v) ∷ [])) l
Absent-grow acc [] k v h a = tt
Absent-grow acc (e ∷ l) k v h a = (
  All-append (λ x. x.0 ≢ e.0) acc ((k, v) ∷ []) a.0 ((λ q. h.0 (sym q)), tt),
  Absent-grow acc l k v h.1 a.1,
)

load_rules-Absent :
    (l acc : Rules)
    → All IsRule l
    → IsDict l
    → All (λ e. Absent e.0 acc) l
    → load_rules (values l) acc ≡ acc ++ l
unfolding load_rules
load_rules-Absent [] acc r d a = sym (append-nil acc)
load_rules-Absent ((k, v) ∷ l) acc r d a =
    ap (λ x. load_rules (values l) (load_line (rule_port x) x acc)) r.0.1
    ∙ ap (λ o. load_rules (values l) (load_line o v acc)) (ap rule_port (sym r.0.1) ∙ r.0.0)
    ∙ ap (load_rules (values l)) (put-Absent acc k v a.0)
    ∙ (load_rules-Absent l (acc ++ (k, v) ∷ []) r.1 d.1 (Absent-grow acc l k v d.0 a.1)
        ∙ append_assoc acc ((k, v) ∷ []) l)

load_rules-same :
    (l d : Rules) → All IsRule l → All (λ e. get d e.0 ≡ some e.1) l → load_rules (values l) d ≡ d
unfolding load_rules
load_rules-same [] d r h = refl
load_rules-same ((k, v) ∷ l) d r h =
    ap (λ x. load_rules (values l) (load_line (rule_port x) x d)) r.0.1
    ∙ ap (λ o. load_rules (values l) (load_line o v d)) (ap rule_port (sym r.0.1) ∙ r.0.0)
    ∙ ap (load_rules (values l)) (put-same d k v h.0)
    ∙ (load_rules-same l d r.1 h.1)

get-behind :
    (k : ℕ) (v : List ℕ) (d l : Rules)
    → Absent k l
    → All (λ e. get d e.0 ≡ some e.1) l
    → All (λ e. get ((k, v) ∷ d) e.0 ≡ some e.1) l
unfolding get
get-behind k v d [] a h = tt
get-behind k v d (e ∷ l) a h =
    (rw (same_ne k e.0 (λ q. a.0 (sym q))) h.0, get-behind k v d l a.1 h.1)

All-get_self : (d : Rules) → IsDict d → All (λ e. get d e.0 ≡ some e.1) d
All-get_self [] i = tt
All-get_self ((k, v) ∷ d) i =
    ((unfold get in rw (same_refl k) refl), get-behind k v d d i.0 (All-get_self d i.1))

-- Reading the whole file changes nothing, and after a restart it gives the rules back.
pub recalled-same : (p : PfRules) (o : Option (List ℕ)) → IsSynced p → recalled to_end p o ≡ p
recalled-same p none h =
    ap (λ d. record p { active = d })
      (ap (λ f. load_rules f p.active) h.same
        ∙ load_rules-same p.active p.active h.rules (All-get_self p.active h.distinct))
recalled-same p (some rule) h = refl

abbrev pub restart : PfRules → PfRules
restart p = record p { active = [] }

All-Absent_nil : (l : Rules) → All (λ e. Absent {V = List ℕ} e.0 []) l
All-Absent_nil [] = tt
All-Absent_nil (e ∷ l) = (tt, All-Absent_nil l)

pub recalled-restart : (p : PfRules) → IsSynced p → recalled to_end (restart p) none ≡ p
recalled-restart p h =
    ap (λ d. record p { active = d })
      (ap (λ f. load_rules f []) h.same
        ∙ load_rules-Absent p.active [] h.rules h.distinct (All-Absent_nil p.active))
