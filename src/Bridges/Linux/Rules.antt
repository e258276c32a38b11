-- ===== src/Bridges/Linux/Rules.antt =====
-- What blocking a port does to the rules of the INPUT chain.
use port_sentinel.Bus.{remove_one}
use port_sentinel.Base.Result.{Result, raise, ok}
use port_sentinel.Base.{
  same_refl, All, not, ◌||◌, zero, suc, ◌∙◌, nat_keys, list_keys, text_keys, List, String, ℕ, Bool,
  ◌≡◌, or_else, [], ◌==◌, false, ◌&&◌, true, leb, is_some, text_keys, if◌then◌else◌, contains, ◌∷◌,
  Bool-cases, inl, inr, refl, Option, some, ap, none,
}
use port_sentinel.Bridges.{
  is_done, is_finished, timed_out, not_run, BridgeError, known_protocol, Outcome, finished,
}
use port_sentinel.Bridges.Linux.{
  Command, LinuxBridge, fw_cmd, check_rule, insert_rule, delete_rule, rule, comment_of, block_port,
  checked, inserted, block_known,
}

-- The manual of iptables: `chain` gives the rules of INPUT, each by its arguments. A check changes
-- nothing, and its code is 0 only if the rule is there. If its code is 0, an insertion at 1 puts the
-- rule first, and a deletion takes the first equal rule away; if a command ends in another way, it
-- changes nothing.
pub record IsIptables {S : Type 0} (run : Command → S → Outcome × S) (bridge : LinuxBridge)
    (chain : S → List (List String)) : Type 0 where
  pub check :
      (spec : List String) (s : S) → chain (run (fw_cmd bridge (check_rule spec)) s).1 ≡ chain s
  pub check_done :
      (spec : List String) (s : S)
      → is_done (run (fw_cmd bridge (check_rule spec)) s).0 ≡ true
      → contains (chain s) spec ≡ true
  pub insert :
      (spec : List String) (s : S)
      → chain (run (fw_cmd bridge (insert_rule spec)) s).1
        ≡ (if is_done (run (fw_cmd bridge (insert_rule spec)) s).0 then spec ∷ chain s else chain s)
  pub delete :
      (spec : List String) (s : S)
      → chain (run (fw_cmd bridge (delete_rule spec)) s).1 ≡ (
          if is_done (run (fw_cmd bridge (delete_rule spec)) s).0
          then remove_one spec (chain s)
          else chain s)

abbrev pub is_valid : String → ℕ → String → Bool
is_valid system port protocol =
    system == "Linux" && (leb 1 port && leb port 65_535) && is_some (known_protocol protocol)

-- The protocol in a rule, "tcp" where it is unknown.
abbrev pub protocol_of : String → String
protocol_of protocol = or_else (known_protocol protocol) "tcp"

abbrev pub block_rule : ℕ → String → List String
block_rule port protocol = rule protocol port (comment_of "Vigilant" port protocol)

abbrev pub returned : {E : Type 0} → Result E Bool → Bool
returned (raise e) = false
returned (ok b) = b

-- The rules that `unblock_port` deletes, under the old name of the program and its new one.
abbrev pub own_rules : ℕ → List (List String)
own_rules port =
    rule "tcp" port (comment_of "Vigilant" port "tcp")
    ∷ rule "tcp" port (comment_of "Sentinel" port "tcp")
    ∷ rule "udp" port (comment_of "Vigilant" port "udp")
    ∷ rule "udp" port (comment_of "Sentinel" port "udp")
    ∷ []

abbrev pub IsFree : ℕ → List (List String) → Type 0
IsFree port rules = All (λ spec. contains rules spec ≡ false) (own_rules port)

module _ {S : Type 0} (run : Command → S → Outcome × S) (bridge : LinuxBridge) (system : String)
    (chain : S → List (List String)) (laws : IsIptables run bridge chain) where
  -- How the check for a rule ends, and an insertion after it.
  abbrev pub check_of : List String → S → Outcome × S
  check_of spec s = run (fw_cmd bridge (check_rule spec)) s

  abbrev pub insertion_of : List String → S → Outcome × S
  insertion_of spec s = run (fw_cmd bridge (insert_rule spec)) (check_of spec s).1

  -- The check fails, and the insertion after it does not.
  abbrev pub is_added : List String → S → Bool
  is_added spec s =
      not (is_done (check_of spec s).0)
      && (is_finished (check_of spec s).0 && is_done (insertion_of spec s).0)

  abbrev pub is_there : List String → S → Bool
  is_there spec s = is_done (check_of spec s).0 || is_added spec s

  inserted_correct :
      (port : ℕ) (o : Outcome) (s : S)
      → let (answer, after) = inserted run bridge system port (o, s) in
        (returned answer ≡ is_done o) × (after ≡ s)
  inserted_correct port (finished zero out) s = (refl, refl)
  inserted_correct port (finished (suc code) out) s = (refl, refl)
  inserted_correct port timed_out s = (refl, refl)
  inserted_correct port not_run s = (refl, refl)

  -- What is answered after a check that ended as it did, and the state then.
  checked_correct :
      (port : ℕ) (spec : List String) (o : Outcome) (s : S)
      → let (answer, after) = checked run bridge system port spec (o, s) in
        let i = run (fw_cmd bridge (insert_rule spec)) s in
        let adds = not (is_done o) && (is_finished o && is_done i.0) in
        (returned answer ≡ (is_done o || adds))
        × (chain after ≡ (if adds then spec ∷ chain s else chain s))
  checked_correct port spec (finished zero out) s = (refl, refl)
  checked_correct port spec (finished (suc code) out) s =
      let (o, t) = run (fw_cmd bridge (insert_rule spec)) s in
      let (answered, same) = inserted_correct port o t in
      (answered, ap chain same ∙ laws.insert spec s)
  checked_correct port spec timed_out s = (refl, refl)
  checked_correct port spec not_run s = (refl, refl)

  -- The rule is in the chain after an answer True.
  there :
      (spec : List String) (s : S)
      → (is_there spec s
          && not (contains (if is_added spec s then spec ∷ chain s else chain s) spec))
        ≡ false
  unfolding contains
  there spec s = elim (Bool-cases (is_done (check_of spec s).0)) [
    | inl y ↦ rw (y, laws.check_done spec s y) refl
    | inr n ↦
        elim (Bool-cases (is_finished (check_of spec s).0 && is_done (insertion_of spec s).0)) [
          | inl y ↦ rw (n, y, same_refl spec) refl
          | inr m ↦ rw (n, m) refl
        ]
  ]

  abbrev Answers : Bool → List String → S → Result BridgeError Bool → S → Type 0
  Answers valid spec s answer after =
      (returned answer ≡ (valid && is_there spec s))
      × (chain after ≡ (if valid && is_added spec s then spec ∷ chain s else chain s))
      × ((returned answer && not (contains (chain after) spec)) ≡ false)

  block_known-Answers :
      (port : ℕ) (protocol : String) (known : Option String) (s : S)
      → let (answer, after) = block_known run bridge system port protocol known s in
        Answers (is_some known) (block_rule port (or_else known "tcp")) s answer after
  block_known-Answers port protocol none s = (refl, refl, refl)
  block_known-Answers port protocol (some known) s =
      let spec = block_rule port known in
      let (o, t) = check_of spec s in
      let (answered, left) = checked_correct port spec o t in
      let (answer, after) = checked run bridge system port spec (o, t) in
      let left' : chain after ≡ (if is_added spec s then spec ∷ chain s else chain s) =
        left ∙ ap (λ l. if is_added spec s then spec ∷ l else l) (laws.check spec s) in
      (answered, left', rw (answered, left') (there spec s))

  -- On a firewall that behaves as iptables, `block_port` returns True exactly on Linux for a port
  -- of 1 to 65535 and a protocol that is tcp or udp in any case, if the check for the rule of the
  -- port exits with 0, or exits with another code and the insertion after it exits with 0. In the
  -- second case the rule is put first, and otherwise the chain stays as it was; after an answer
  -- True the rule is in the chain.
  pub block_port_correct :
      (port : ℕ) (protocol : String) (s : S)
      → let (answer, after) = block_port run bridge system port protocol s in
        let valid = is_valid system port protocol in
        let spec = block_rule port (protocol_of protocol) in
        (returned answer ≡ (valid && is_there spec s))
        × (chain after ≡ (if valid && is_added spec s then spec ∷ chain s else chain s))
        × ((returned answer && not (contains (chain after) spec)) ≡ false)
  unfolding block_port
  block_port_correct port protocol s = elim (Bool-cases (system == "Linux")) [
    | inr n ↦ rw n (refl, refl, refl)
    | inl y ↦ elim (Bool-cases (leb 1 port && leb port 65_535)) [
      | inr n ↦ rw (y, n) (refl, refl, refl)
      | inl z ↦ rw (y, z) (block_known-Answers port protocol (known_protocol protocol) s)
    ]
  ]
