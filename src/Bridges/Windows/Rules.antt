-- ===== src/Bridges/Windows/Rules.antt =====
-- What blocking a port does to the rules of the Windows firewall.
use port_sentinel.Base.Result.{Result, ok, raise}
use port_sentinel.Bridges.{
  is_done, is_finished, Outcome, finished, timed_out, not_run, BridgeError, firewall_rule_error,
}
use port_sentinel.Base.{
  list_keys, text_keys, nat_keys, String, ℕ, Option, List, some, none, Bool, ◌||◌, ◌&&◌, not,
  if◌then◌else◌, leb, ◌==◌, true, false, ◌≡◌, is_some, or_else, refl, Bool-cases, inl, inr, ◌∙◌, ap,
  arith, suc, zero,
}
use port_sentinel.Bridges.Windows.{
  NetshCommand, add_rule, delete_rule, show_rules, rule_name, settings_of, known_upper, add_in,
  added, block_known, block_port,
}

-- The documentation of netsh: `holds` says whether the firewall has a rule of a name and settings.
-- `add rule` adds a rule if its code is 0, and else none; `delete rule` ends, and deletes every
-- rule of the name; `show rule` changes nothing.
pub record IsNetsh {S : Type 0} (run : NetshCommand → S → Outcome × S)
    (holds : S → List ℕ → List String → Bool) : Type 0 where
  pub add :
      (name : List ℕ) (settings : List String) (s : S) (n : List ℕ) (x : List String)
      → holds (run (add_rule name settings) s).1 n x ≡ (
          holds s n x || is_done (run (add_rule name settings) s).0 && (name == n && settings == x))
  pub delete :
      (name : List ℕ) (s : S) (n : List ℕ) (x : List String)
      → holds (run (delete_rule name) s).1 n x ≡ (holds s n x && not (name == n))
  pub delete_ends : (name : List ℕ) (s : S) → is_finished (run (delete_rule name) s).0 ≡ true
  pub show : (s : S) (n : List ℕ) (x : List String) → holds (run show_rules s).1 n x ≡ holds s n x

abbrev pub returned : {E : Type 0} → Result E Bool → Bool
returned (raise e) = false
returned (ok b) = b

abbrev pub is_served : String → ℕ → Bool
is_served system port = system == "Windows" && (leb 1 port && leb port 65_535)

abbrev pub is_valid : String → ℕ → String → Bool
is_valid system port protocol = is_served system port && is_some (known_upper protocol)

-- The protocol in a rule; it is not used where it is unknown.
abbrev pub protocol_of : String → String
protocol_of protocol = or_else (known_upper protocol) ""

abbrev pub is_rule : String → String → ℕ → String → List ℕ → List String → Bool
is_rule label direction port protocol n x =
    rule_name "Vigilant" label port == n && settings_of direction protocol port == x

abbrev pub is_own : ℕ → List ℕ → Bool
is_own port n =
    rule_name "Vigilant" "Out" port == n
    || rule_name "Sentinel" "Out" port == n
    || rule_name "Vigilant" "In" port == n
    || rule_name "Sentinel" "In" port == n

if_same : {A : Type 0} → (b : Bool) (x : A) → (if b then x else x) ≡ x
if_same true x = refl
if_same false x = refl

pub and_true : (b : Bool) → (b && true) ≡ b
and_true true = refl
and_true false = refl

or_added :
    (h d k v w : Bool)
    → (if d then (h || d && v) || k && w else (h || d && v)) ≡ (h || (d && (v || k && w)))
or_added h d k v w = ground arith

module _ {S : Type 0} (run : NetshCommand → S → Outcome × S) (system : String)
    (holds : S → List ℕ → List String → Bool) (laws : IsNetsh run holds) where
  added_correct :
      (go : S → Result BridgeError Bool × S) (direction : String) (port : ℕ) (protocol : String)
      (o : Outcome) (s : S)
      → let (answer, t) = added run system go direction port protocol (o, s) in
        (returned answer ≡ (is_done o && returned (go s).0))
        × (t ≡ (if is_done o then (go s).1 else s))
  added_correct go direction port protocol (finished zero out) s = (refl, refl)
  added_correct go direction port protocol (finished (suc code) out) s = (refl, refl)
  added_correct go direction port protocol timed_out s = (refl, refl)
  added_correct go direction port protocol not_run s = (refl, refl)

  -- What netsh answers for the two rules, one after the other.
  abbrev pub first : ℕ → String → S → Outcome × S
  first port protocol s = add_in run system "Out" "out" port protocol s

  abbrev pub second : ℕ → String → S → Outcome × S
  second port protocol s = add_in run system "In" "in" port protocol (first port protocol s).1

  abbrev Blocked : Bool → ℕ → String → S → Result BridgeError Bool → S → Type 0
  Blocked valid port protocol s answer t =
      (returned answer
        ≡ (valid && (is_done (first port protocol s).0 && is_done (second port protocol s).0)))
      × ((n : List ℕ) (x : List String)
          → holds t n x ≡ (
              holds s n x
              || (valid
                  && (is_done (first port protocol s).0
                      && (is_rule "Out" "out" port protocol n x
                          || is_done (second port protocol s).0
                            && is_rule "In" "in" port protocol n x)))))

  rejected :
      (port : ℕ) (protocol : String) (s : S) (error : BridgeError)
      → Blocked false port protocol s (raise error) s
  rejected port protocol s error = (refl, λ n x. ground arith)

  holds_second :
      (port : ℕ) (known : String) (s : S) (n : List ℕ) (x : List String) (b : Bool)
      → holds (if b then (second port known s).1 else (first port known s).1) n x ≡ (
          if b
          then holds (first port known s).1 n x
            || is_done (second port known s).0 && is_rule "In" "in" port known n x
          else holds (first port known s).1 n x)
  holds_second port known s n x true =
      laws.add (rule_name "Vigilant" "In" port) (settings_of "in" known port) (first port known s).1
        n x
  holds_second port known s n x false = refl

  block_known_correct :
      (port : ℕ) (protocol : String) (o : Option String) (s : S)
      → let (answer, t) = block_known run system port protocol o s in
        Blocked (is_some o) port (or_else o "") s answer t
  block_known_correct port protocol none s = rejected port "" s (firewall_rule_error "")
  block_known_correct port protocol (some known) s =
      let (d, u) = first port known s in
      let (k, v) = second port known s in
      let go : S → Result BridgeError Bool × S = λ w.
        added run system (λ z. (ok true, z)) "in" port known
          (add_in run system "In" "in" port known w) in
      let one = added_correct go "out" port known d u in
      let two = added_correct (λ z. (ok true, z)) "in" port known k v in
      let adds : (n : List ℕ) (x : List String)
          → (if is_done d
              then holds u n x || is_done k && is_rule "In" "in" port known n x
              else holds u n x)
            ≡ (holds s n x
                || (is_done d
                    && (is_rule "Out" "out" port known n x
                        || is_done k && is_rule "In" "in" port known n x))) =
        λ n x.
          ap (λ h. if is_done d then (h || is_done k && is_rule "In" "in" port known n x) else h)
            (laws.add (rule_name "Vigilant" "Out" port) (settings_of "out" known port) s n x)
          ∙ or_added (holds s n x) (is_done d) (is_done k) (is_rule "Out" "out" port known n x)
              (is_rule "In" "in" port known n x) in
      (
        one.0 ∙ ap (λ b. is_done d && b) (two.0 ∙ and_true (is_done k)),
        λ n x.
            ap (λ t. holds t n x)
              (one.1 ∙ ap (λ w. if is_done d then w else u) (two.1 ∙ if_same (is_done k) v))
            ∙ holds_second port known s n x (is_done d)
            ∙ adds n x,
      )

  -- `block_port` returns True if and only if it runs on Windows, the port is in 1 to 65535, the
  -- protocol is TCP or UDP in either case and netsh answers 0 for both rules; the firewall then has
  -- the two rules besides what it had. If netsh answers 0 for the first rule only, the first rule
  -- stays, and in every other case the rules are what they were.
  pub block_port_added :
      (port : ℕ) (protocol : String) (s : S)
      → let (answer, t) = block_port run system port protocol s in
        let valid = is_valid system port protocol in
        let known = protocol_of protocol in
        let a = is_done (first port known s).0 in
        let b = is_done (second port known s).0 in
        (returned answer ≡ (valid && (a && b)))
        × ((n : List ℕ) (x : List String)
            → holds t n x ≡ (
                holds s n x
                || (valid
                    && (a
                        && (is_rule "Out" "out" port known n x
                            || b && is_rule "In" "in" port known n x)))))
  unfolding block_port
  block_port_added port protocol s = elim (Bool-cases (system == "Windows")) [
    | inr n ↦ rw n (rejected port (protocol_of protocol) s (firewall_rule_error ""))
    | inl y ↦ elim (Bool-cases (leb 1 port && leb port 65_535)) [
      | inr m ↦ rw (y, m) (rejected port (protocol_of protocol) s (firewall_rule_error ""))
      | inl z ↦ rw (y, z) (block_known_correct port protocol (known_upper protocol) s)
    ]
  ]
