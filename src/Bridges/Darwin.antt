-- ===== src/Bridges/Darwin.antt =====
-- backend/os_adapters/darwin_bridge.py: the rules of the packet filter. Text is a list of code
-- points. The rules file is the list of its lines, one for each rule (so an interface is taken to
-- have no line end). How a write, a reading and the removal of the file end depends on the state of
-- the system; the texts of messages leave out what an exception says.
pub mod Parsing
pub mod Lsof
pub mod Printed
pub mod Reading
pub mod Calls
pub mod Restart
use port_sentinel.Base.{
  take, is_some, String, ℕ, Option, List, some, [], none, ◌∷◌, length, nat_keys, Bool, ◌||◌,
  if◌then◌else◌, false, true, ◌&&◌, not, leb, ◌==◌, text_keys,
}
use port_sentinel.Base.Dict.{Dict, get, put, remove, values}
use port_sentinel.Base.Words.{codes, strip, is_digit}
use port_sentinel.Base.Result.{Result, ok, raise}
use port_sentinel.Base.Text.{show, concat}
use port_sentinel.Bridges.{
  known_protocol, Outcome, finished, timed_out, not_run, BridgeError, firewall_rule_error,
  cleanup_error,
}
use port_sentinel.Bridges.Darwin.Parsing.{pf_rule, rule_port}

-- `_active_rules`, and the file, if it exists.
pub record PfRules : Type 0 where
  pub active : Dict ℕ (List ℕ)
  pub file : Option (List (List ℕ))

-- `pfctl -a com.vigilant -f` with the file as it is, `pfctl -e`, and `pfctl -a com.vigilant -Fr`.
pub data PfCommand : Type 0 where
  load : (file : Option (List (List ℕ))) → PfCommand
  enable flush : PfCommand

abbrev pub file_lines : Option (List (List ℕ)) → List (List ℕ)
file_lines none = []
file_lines (some lines) = lines

-- A write of the file is whole, or raises and leaves something else in its place.
pub data FileWrite : Type 0 where
  whole : FileWrite
  cut_off : (left : Option (List (List ℕ))) → FileWrite

-- The reading of the file comes to its end, or raises after some lines.
pub data FileRead : Type 0 where
  to_end : FileRead
  stops_after : (lines : ℕ) → FileRead

-- How the file can be written, read and removed, in a state of the system.
pub record Disk (S : Type 0) : Type 0 where
  pub writing : S → FileWrite
  pub reading : S → FileRead
  pub can_remove : S → Bool

-- An exception is only logged.
unfoldable pub write_pf_rules : FileWrite → PfRules → PfRules
write_pf_rules whole p = record p { file = some (values p.active) }
write_pf_rules (cut_off left) p = record p { file = left }

abbrev pub lines_read : FileRead → List (List ℕ) → List (List ℕ)
lines_read to_end lines = lines
lines_read (stops_after n) lines = take n lines

abbrev is_alphanumeric : ℕ → Bool
is_alphanumeric c = is_digit c || leb 65 c && leb c 90 || leb 97 c && leb c 122

-- `[a-zA-Z0-9]*$`, which also matches before a last line end.
abbrev rest_of_interface : List ℕ → Bool
rest_of_interface [] = true
rest_of_interface (c ∷ []) = is_alphanumeric c || c == 10
rest_of_interface (c ∷ d ∷ s) = is_alphanumeric c && rest_of_interface (d ∷ s)

abbrev nonempty_interface : List ℕ → Bool
nonempty_interface [] = false
nonempty_interface (c ∷ s) = is_alphanumeric c && rest_of_interface s

-- `re.match(r"^[a-zA-Z0-9]+$", interface)`
unfoldable pub is_interface : String → Bool
is_interface interface = nonempty_interface (codes interface)

abbrev pub load_line : Option ℕ → List ℕ → Dict ℕ (List ℕ) → Dict ℕ (List ℕ)
load_line none line active = active
load_line (some port) line active = put active port line

-- The loop over the lines of the file.
unfoldable pub load_rules : List (List ℕ) → Dict ℕ (List ℕ) → Dict ℕ (List ℕ)
load_rules [] active = active
load_rules (line ∷ rest) active =
    load_rules rest (load_line (rule_port (strip line)) (strip line) active)

-- The rules of the file are read if the port has none in memory; an exception is only logged, and
-- the lines before it are kept.
abbrev pub recalled : FileRead → PfRules → Option (List ℕ) → PfRules
recalled reading p none = record p {
  active = load_rules (lines_read reading (file_lines p.file)) p.active;
}
recalled reading p (some rule) = p

-- `system` is `platform.system()`, and `run` runs a command of pfctl.
module _ {S : Type 0} (disk : Disk S) (run : PfCommand → S → Outcome × S) (system : String) where
  abbrev pub enabled : ℕ → Outcome × S → Result BridgeError Bool × S
  enabled port (finished code out, s) = (ok true, s)
  enabled port (timed_out, s) =
      (raise (firewall_rule_error (concat ("pfctl timed out for port " ∷ show port ∷ []))), s)
  enabled port (not_run, s) =
      (raise (firewall_rule_error (concat ("Error blocking port " ∷ show port ∷ []))), s)

  -- No return code is looked at.
  abbrev pub loaded : ℕ → Outcome × S → Result BridgeError Bool × S
  loaded port (finished code out, s) = enabled port (run enable s)
  loaded port (timed_out, s) =
      (raise (firewall_rule_error (concat ("pfctl timed out for port " ∷ show port ∷ []))), s)
  loaded port (not_run, s) =
      (raise (firewall_rule_error (concat ("Error blocking port " ∷ show port ∷ []))), s)

  -- `_active_rules[port] = rule` and `_write_pf_rules()`
  abbrev pub with_rule : PfRules → ℕ → List ℕ → S → PfRules
  with_rule p port rule s =
      write_pf_rules (disk.writing s) (record p { active = put p.active port rule })

  abbrev pub block_known :
      ℕ → String → String → Option String → PfRules → S → Result BridgeError Bool × PfRules × S
  block_known port protocol interface none p s =
      (raise (firewall_rule_error (concat ("Invalid protocol: " ∷ protocol ∷ []))), p, s)
  block_known port protocol interface (some known) p s =
      if not (is_interface interface)
      then (raise (firewall_rule_error (concat ("Invalid interface: " ∷ interface ∷ []))), p, s)
      else (let p' = with_rule p port (pf_rule interface known port) s in
          let (answer, s') = loaded port (run (load p'.file) s) in (answer, p', s'))

  unfoldable pub block_port :
      ℕ → String → String → PfRules → S → Result BridgeError Bool × PfRules × S
  block_port port protocol interface p s =
      if not (system == "Darwin")
      then (raise (firewall_rule_error "pfctl requires macOS"), p, s)
      else if not (leb 1 port && leb port 65_535)
      then (raise (firewall_rule_error (concat ("Invalid port: " ∷ show port ∷ []))), p, s)
      else block_known port protocol interface (known_protocol protocol) p s

  abbrev pub forget_rule : ℕ → PfRules → Option (List ℕ) → S → Result BridgeError Bool × PfRules × S
  forget_rule port p none s = (ok true, p, s)
  forget_rule port p (some rule) s =
      let p' = write_pf_rules (disk.writing s) (record p { active = remove p.active port }) in
      (ok true, p', (run (load p'.file) s).1)

  unfoldable pub unblock_port : ℕ → PfRules → S → Result BridgeError Bool × PfRules × S
  unblock_port port p s =
      let p' = recalled (disk.reading s) p (get p.active port) in
      forget_rule port p' (get p'.active port) s

  abbrev pub flushed : ℕ → PfRules → Outcome × S → Result BridgeError ℕ × PfRules × S
  flushed removed p (finished code out, s) =
      if is_some p.file && not (disk.can_remove s)
      then (raise (cleanup_error "Failed to clean up pf rules"), p, s)
      else (ok removed, record p { file = none }, s)
  flushed removed p (timed_out, s) = (raise (cleanup_error "Failed to clean up pf rules"), p, s)
  flushed removed p (not_run, s) = (raise (cleanup_error "Failed to clean up pf rules"), p, s)

  unfoldable pub cleanup_all_rules : PfRules → S → Result BridgeError ℕ × PfRules × S
  cleanup_all_rules p s = flushed (length p.active) (record p { active = [] }) (run flush s)
