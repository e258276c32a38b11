-- ===== src/Bridges/Linux.antt =====
-- backend/os_adapters/linux_bridge.py: the rules of the INPUT chain. A command either ends with a
-- return code, runs out of time or raises another exception. The texts of messages leave out what
-- the command or the exception says.
pub mod Listing
pub mod Rules
pub mod Removal
pub mod Cleanup
use port_sentinel.Base.{
  list_keys, Bool, Option, String, List, ℕ, if◌then◌else◌, ◌∷◌, ◌==◌, true, not, text_keys, some,
  [], false, leb, suc, ◌+◌, zero, ◌&&◌, nat_keys, none,
}
use port_sentinel.Bridges.{
  known_protocol, Outcome, finished, timed_out, not_run, BridgeError, firewall_rule_error,
  cleanup_error,
}
use port_sentinel.Base.Result.{Result, ok, raise}
use port_sentinel.Base.Text.{show, concat, lower}
use port_sentinel.Base.Words.{strip, split_lines}
use port_sentinel.Base.Sort.{sorted}
use port_sentinel.Bridges.Linux.Listing.{to_delete, backwards}

-- The arguments after `INPUT` (and the position) that name a rule.
abbrev pub rule : String → ℕ → String → List String
rule protocol port comment =
    "-p"
    ∷ protocol
    ∷ "--dport"
    ∷ show port
    ∷ "-j"
    ∷ "DROP"
    ∷ "-m"
    ∷ "comment"
    ∷ "--comment"
    ∷ comment
    ∷ []

-- The arguments of the firewall command: `-C INPUT`, `-I INPUT 1` and `-D INPUT` with a rule,
-- `-L INPUT -n --line-numbers`, and `-D INPUT` with the number of a rule.
pub data FirewallAction : Type 0 where
  check_rule insert_rule delete_rule : (rule : List String) → FirewallAction
  list_rules : FirewallAction
  delete_line : (number : ℕ) → FirewallAction

pub record Command : Type 0 where
  pub sudo : Bool
  pub program : String
  pub action : FirewallAction

pub record LinuxBridge : Type 0 where
  pub use_sudo : Bool
  pub firewall_cmd : String

-- `which` says whether a program is found.
unfoldable pub detect_firewall : (String → Bool) → String
detect_firewall which =
    if which "iptables" then "iptables" else if which "nft" then "nft" else "iptables"

-- The effective user id, where the platform has one.
unfoldable pub new_bridge : Option ℕ → (String → Bool) → LinuxBridge
new_bridge none which = record { use_sudo = true; firewall_cmd = detect_firewall which }
new_bridge (some euid) which = record {
  use_sudo = not (euid == 0);
  firewall_cmd = detect_firewall which;
}

abbrev pub fw_cmd : LinuxBridge → FirewallAction → Command
fw_cmd bridge action = record {
  sudo = bridge.use_sudo;
  program = bridge.firewall_cmd;
  action = action;
}

abbrev pub comment_of : String → ℕ → String → String
comment_of prefix port protocol = concat (prefix ∷ "_Block_" ∷ show port ∷ "_" ∷ protocol ∷ [])

-- `system` is `platform.system()`, and `run` runs a command on a firewall.
module _ {S : Type 0} (run : Command → S → Outcome × S) (bridge : LinuxBridge)
    (system : String) where
  abbrev pub inserted : ℕ → Outcome × S → Result BridgeError Bool × S
  inserted port (finished zero out, s) = (ok true, s)
  inserted port (finished (suc code) out, s) = (raise (firewall_rule_error "iptables failed"), s)
  inserted port (timed_out, s) =
      (raise (firewall_rule_error (concat ("iptables timed out for port " ∷ show port ∷ []))), s)
  inserted port (not_run, s) =
      (raise (firewall_rule_error (concat ("Error blocking port " ∷ show port ∷ []))), s)

  -- The check has no time limit of its own.
  abbrev pub checked : ℕ → List String → Outcome × S → Result BridgeError Bool × S
  checked port spec (finished zero out, s) = (ok true, s)
  checked port spec (finished (suc code) out, s) =
      inserted port (run (fw_cmd bridge (insert_rule spec)) s)
  checked port spec (timed_out, s) =
      (raise (firewall_rule_error (concat ("iptables timed out for port " ∷ show port ∷ []))), s)
  checked port spec (not_run, s) =
      (raise (firewall_rule_error (concat ("Error blocking port " ∷ show port ∷ []))), s)

  abbrev pub block_known : ℕ → String → Option String → S → Result BridgeError Bool × S
  block_known port protocol none s =
      (raise (firewall_rule_error (concat ("Invalid protocol: " ∷ protocol ∷ []))), s)
  block_known port protocol (some known) s =
      let spec = rule known port (comment_of "Vigilant" port known) in
      checked port spec (run (fw_cmd bridge (check_rule spec)) s)

  unfoldable pub block_port : ℕ → String → S → Result BridgeError Bool × S
  block_port port protocol s =
      if not (system == "Linux")
      then (raise (firewall_rule_error "iptables operations require Linux"), s)
      else if not (leb 1 port && leb port 65_535)
      then (raise (firewall_rule_error (concat ("Invalid port: " ∷ show port ∷ []))), s)
      else block_known port protocol (known_protocol protocol) s

  -- Whatever comes of the command is only logged.
  abbrev pub delete : ℕ → String → String → S → S
  delete port protocol prefix s =
      (run (fw_cmd bridge (delete_rule (rule protocol port (comment_of prefix port protocol)))) s).1

  unfoldable pub unblock_port : ℕ → S → Result BridgeError Bool × S
  unblock_port port s = if not (system == "Linux") then (ok false, s) else (
    ok true,
    delete port "udp" "Sentinel" (
        delete port "udp" "Vigilant"
          (delete port "tcp" "Sentinel" (delete port "tcp" "Vigilant" s))),
  )

  -- `go` deletes the lines that are left, on what is removed so far.
  abbrev pub after_line :
      (ℕ → S → Result BridgeError ℕ × S) → ℕ → Outcome × S → Result BridgeError ℕ × S
  after_line go removed (finished code out, s) = go (if code == 0 then removed + 1 else removed) s
  after_line go removed (timed_out, s) = (raise (cleanup_error "Failed to clean up iptables"), s)
  after_line go removed (not_run, s) = (raise (cleanup_error "Failed to clean up iptables"), s)

  unfoldable pub delete_lines : List ℕ → ℕ → S → Result BridgeError ℕ × S
  delete_lines [] removed s = (ok removed, s)
  delete_lines (n ∷ ns) removed s =
      after_line (delete_lines ns) removed (run (fw_cmd bridge (delete_line n)) s)

  abbrev pub listed : Outcome × S → Result BridgeError ℕ × S
  listed (finished zero out, s) =
      delete_lines (backwards (sorted (λ n. n) (to_delete (split_lines (strip out))))) 0 s
  listed (finished (suc code) out, s) = (raise (cleanup_error "Failed to list iptables rules"), s)
  listed (timed_out, s) = (raise (cleanup_error "Failed to clean up iptables"), s)
  listed (not_run, s) = (raise (cleanup_error "Failed to clean up iptables"), s)

  unfoldable pub cleanup_all_rules : S → Result BridgeError ℕ × S
  cleanup_all_rules s =
      if not (system == "Linux") then (ok 0, s) else listed (run (fw_cmd bridge list_rules) s)
