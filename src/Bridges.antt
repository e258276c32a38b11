-- ===== src/Bridges.antt =====
-- The firewall bridges of backend/os_adapters/.
pub mod Linux
pub mod Darwin
pub mod Windows
pub mod Ports
use port_sentinel.Base.Text.{lower}
use port_sentinel.Base.{
  Bool, true, false, zero, suc, list_keys, nat_keys, ℕ, String, List, Option, if◌then◌else◌, ◌==◌,
  some, none,
}

-- How `subprocess.run` ends; standard output is given as code points.
pub data Outcome : Type 0 where
  finished : (returncode : ℕ) (stdout : List ℕ) → Outcome
  timed_out : Outcome
  not_run : Outcome

-- It ends with the code 0, or with any code.
abbrev pub is_done : Outcome → Bool
is_done (finished zero out) = true
is_done (finished (suc code) out) = false
is_done timed_out = false
is_done not_run = false

abbrev pub is_finished : Outcome → Bool
is_finished (finished code out) = true
is_finished timed_out = false
is_finished not_run = false

-- The exceptions of backend/core/exceptions.py that a bridge raises, with what the message is about.
pub data BridgeError : Type 0 where
  firewall_rule_error : (message : String) → BridgeError
  cleanup_error : (message : String) → BridgeError

-- `protocol.lower()` where it is one of the two that are allowed.
unfoldable pub known_protocol : String → Option String
known_protocol protocol =
    if lower protocol == lower "tcp"
    then some "tcp"
    else if lower protocol == lower "udp"
    then some "udp"
    else none
