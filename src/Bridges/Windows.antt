-- ===== src/Bridges/Windows.antt =====
-- backend/os_adapters/win32_bridge.py: the rules of the Windows firewall. The names of rules and
-- what netsh prints are lists of code points; the texts of messages leave out what an exception
-- says.
pub mod Ports
pub mod Rules
pub mod Removal
use port_sentinel.Base.Result.{Result, ok, raise}
use port_sentinel.Base.Text.{show, concat, upper}
use port_sentinel.Bridges.{
  Outcome, finished, timed_out, not_run, BridgeError, firewall_rule_error, cleanup_error,
}
use port_sentinel.Base.{
  list_keys, text_keys, nat_keys, String, ℕ, Option, List, some, [], none, ◌∷◌, ◌++◌, Bool, ◌||◌,
  ◌&&◌, not, if◌then◌else◌, leb, ◌==◌, true, false, drop, length, ◌+◌, ◌-◌, suc, zero,
}
use port_sentinel.Base.Words.{codes, is_space, starts_with, skip_spaces, up_to_space}

-- `netsh advfirewall firewall` with `add rule`, `delete rule` and `show rule name=all`.
pub data NetshCommand : Type 0 where
  add_rule : (name : List ℕ) (settings : List String) → NetshCommand
  delete_rule : (name : List ℕ) → NetshCommand
  show_rules : NetshCommand

-- `f"{prefix}_Block_{direction}_{port}"`
unfoldable pub rule_name : String → String → ℕ → List ℕ
rule_name prefix direction port =
    codes prefix ++ codes "_Block_" ++ codes direction ++ codes "_" ++ codes (show port)

abbrev pub settings_of : String → String → ℕ → List String
settings_of direction protocol port =
    concat ("dir=" ∷ direction ∷ [])
    ∷ "action=block"
    ∷ concat ("protocol=" ∷ protocol ∷ [])
    ∷ concat ("localport=" ∷ show port ∷ [])
    ∷ []

-- `protocol.upper()` where it is one of the two that are allowed.
unfoldable pub known_upper : String → Option String
known_upper protocol =
    if upper protocol == upper "TCP"
    then some "TCP"
    else if upper protocol == upper "UDP"
    then some "UDP"
    else none

-- `(Vigilant|Sentinel)_\S+`: both prefixes have nine code points.
abbrev own_name : List ℕ → Option (List ℕ)
own_name s =
    if (starts_with (codes "Vigilant_") s || starts_with (codes "Sentinel_") s)
      && leb 1 (length (up_to_space (drop 9 s)))
    then some (up_to_space s)
    else none

-- A match at the start, and how many code points of it come after the first one.
abbrev entry_of : List ℕ → List ℕ → Option (List ℕ) → List (List ℕ) × ℕ
entry_of s rest none = ([], 0)
entry_of s rest (some name) = (name ∷ [], length s - length rest + length name - 1)

-- `Rule Name:\s+((Vigilant|Sentinel)_\S+)` at the start of a text.
unfoldable pub entry_at : List ℕ → List (List ℕ) × ℕ
entry_at s =
    let after = drop 10 s in
    let rest = skip_spaces after in
    if starts_with (codes "Rule Name:") s && not (length rest == length after)
    then entry_of s rest (own_name rest)
    else ([], 0)

abbrev entry_from : ℕ → List ℕ → List (List ℕ) × ℕ
entry_from zero s = entry_at s
entry_from (suc skipped) s = ([], skipped)

-- `re.findall`, which goes on behind a match: `skipped` code points are left of one.
unfoldable pub find_names : ℕ → List ℕ → List (List ℕ)
find_names skipped [] = []
find_names skipped (c ∷ s) =
    let (names, left) = entry_from skipped (c ∷ s) in names ++ find_names left s

-- `system` is `platform.system()`, and `run` runs a command of netsh on a firewall.
module _ {S : Type 0} (run : NetshCommand → S → Outcome × S) (system : String) where
  abbrev pub add_in : String → String → ℕ → String → S → Outcome × S
  add_in label direction port protocol s =
      run (add_rule (rule_name "Vigilant" label port) (settings_of direction protocol port)) s

  -- What the body of the loop over the directions does with an outcome; `go` is what comes after.
  abbrev pub added :
      (S → Result BridgeError Bool × S)
      → String
      → ℕ
      → String
      → Outcome × S
      → Result BridgeError Bool × S
  added go direction port protocol (finished zero out, s) = go s
  added go direction port protocol (finished (suc code) out, s) = (
    raise (
        firewall_rule_error (
          concat (
            "Failed to create "
            ∷ direction
            ∷ "bound rule for port "
            ∷ show port
            ∷ "/"
            ∷ protocol
            ∷ []))),
    s,
  )
  added go direction port protocol (timed_out, s) = (
    raise (firewall_rule_error (concat ("Firewall command timed out for port " ∷ show port ∷ []))),
    s,
  )
  added go direction port protocol (not_run, s) =
      (raise (firewall_rule_error (concat ("Unexpected error blocking port " ∷ show port ∷ []))), s)

  abbrev pub block_known : ℕ → String → Option String → S → Result BridgeError Bool × S
  block_known port protocol none s =
      (raise (firewall_rule_error (concat ("Invalid protocol: " ∷ protocol ∷ []))), s)
  block_known port protocol (some known) s =
      added (λ t. added (λ u. (ok true, u)) "in" port known (add_in "In" "in" port known t)) "out"
        port known (add_in "Out" "out" port known s)

  unfoldable pub block_port : ℕ → String → S → Result BridgeError Bool × S
  block_port port protocol s =
      if not (system == "Windows")
      then (raise (firewall_rule_error "Windows firewall operations require Windows OS"), s)
      else if not (leb 1 port && leb port 65_535)
      then (raise (firewall_rule_error (concat ("Invalid port number: " ∷ show port ∷ []))), s)
      else block_known port protocol (known_upper protocol) s

  -- Whatever comes of the command is only logged.
  abbrev pub delete : String → String → ℕ → S → S
  delete prefix label port s = (run (delete_rule (rule_name prefix label port)) s).1

  unfoldable pub unblock_port : ℕ → S → Result BridgeError Bool × S
  unblock_port port s =
      if not (system == "Windows")
      then (ok false, s)
      else if not (leb 1 port && leb port 65_535)
      then (ok false, s)
      else (
        ok true,
        delete "Sentinel" "In" port (
            delete "Vigilant" "In" port
              (delete "Sentinel" "Out" port (delete "Vigilant" "Out" port s))),
      )

  -- A deletion that does not raise is counted, whatever netsh answers.
  abbrev pub counted : ℕ → Outcome × S → ℕ × S
  counted removed (finished code out, s) = (removed + 1, s)
  counted removed (timed_out, s) = (removed, s)
  counted removed (not_run, s) = (removed, s)

  unfoldable pub delete_names : List (List ℕ) → ℕ → S → ℕ × S
  delete_names [] removed s = (removed, s)
  delete_names (name ∷ names) removed s =
      let (removed', s') = counted removed (run (delete_rule name) s) in
      delete_names names removed' s'

  abbrev pub shown : Outcome × S → Result BridgeError ℕ × S
  shown (finished code out, s) =
      let (removed, s') = delete_names (find_names 0 out) 0 s in (ok removed, s')
  shown (timed_out, s) = (raise (cleanup_error "Failed to enumerate firewall rules"), s)
  shown (not_run, s) = (raise (cleanup_error "Failed to enumerate firewall rules"), s)

  unfoldable pub cleanup_all_rules : S → Result BridgeError ℕ × S
  cleanup_all_rules s = if not (system == "Windows") then (ok 0, s) else shown (run show_rules s)
