-- ===== src/Bridges/Ports.antt =====
-- `get_port_pid_map` of the bridges of backend/os_adapters/, with what psutil says of connections
-- and processes as arguments: nothing where a call raises. A set of ports seen is a list.
pub mod Listed
use port_sentinel.Base.{
  String, ℕ, zero, suc, List, [], ◌∷◌, Bool, Option, some, none, contains, nat_keys, or_else,
  if◌then◌else◌, ◌==◌, ◌++◌,
}

-- `conn.laddr.port`, if the connection has an address, `conn.pid`, `conn.type == 1` and the status.
pub record Connection : Type 0 where
  pub local_port : Option ℕ
  pub pid : Option ℕ
  pub is_stream : Bool
  pub status : String

pub record PortEntry : Type 0 where
  pub port : ℕ
  pub pid : ℕ
  pub app_name : String
  pub protocol : String
  pub status : String

-- `_resolve_pid_name`, with the protected process ids of the system.
unfoldable pub resolve_pid_name : List ℕ → (ℕ → Option String) → ℕ → String
resolve_pid_name protected proc_name pid =
    if contains protected pid then "System" else or_else (proc_name pid) "Unknown"

-- The port of a connection that is listed, if it is: not where it is 0.
abbrev pub listed_port : Option ℕ → Option ℕ
listed_port none = none
listed_port (some port) = if port == 0 then none else some port

module _ (protected : List ℕ) (proc_name : ℕ → Option String) where
  unfoldable pub make_entry : ℕ → Connection → PortEntry
  make_entry port conn = record {
    port = port;
    pid = or_else conn.pid 0;
    app_name = resolve_pid_name protected proc_name (or_else conn.pid 0);
    protocol = if conn.is_stream then "TCP" else "UDP";
    status = conn.status;
  }

  -- The body of the loop: what it appends, and the ports seen after it.
  abbrev pub list_port : Connection → Option ℕ → List ℕ → List PortEntry × List ℕ
  list_port conn none seen_ports = ([], seen_ports)
  list_port conn (some port) seen_ports =
      if contains seen_ports port
      then ([], seen_ports)
      else (make_entry port conn ∷ [], port ∷ seen_ports)

  unfoldable pub port_entries : List Connection → List ℕ → List PortEntry
  port_entries [] seen_ports = []
  port_entries (conn ∷ rest) seen_ports =
      let (results, seen) = list_port conn (listed_port conn.local_port) seen_ports in
      results ++ port_entries rest seen

  unfoldable pub get_port_pid_map : Option (List Connection) → List PortEntry
  get_port_pid_map none = []
  get_port_pid_map (some connections) = port_entries connections []
