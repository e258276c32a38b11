-- ===== src/Bridges/Windows/Ports.antt =====
-- `get_port_pid_map` of backend/os_adapters/win32_bridge.py: where psutil denies access, it is
-- asked once more, and nothing is left out then but connections without a port.
use port_sentinel.Base.{String, ℕ, List, [], ◌∷◌, ◌++◌, Option, some, none}
use port_sentinel.Bridges.Ports.{Connection, PortEntry, listed_port, make_entry, port_entries}

abbrev pub table_entry : (ℕ → Option String) → Connection → Option ℕ → List PortEntry
table_entry proc_name conn none = []
table_entry proc_name conn (some port) = make_entry (0 ∷ 4 ∷ []) proc_name port conn ∷ []

-- `_get_tcp_table_ctypes`
unfoldable pub get_tcp_table : (ℕ → Option String) → List Connection → List PortEntry
get_tcp_table proc_name [] = []
get_tcp_table proc_name (conn ∷ rest) =
    table_entry proc_name conn (listed_port conn.local_port) ++ get_tcp_table proc_name rest

abbrev pub table_or_empty : (ℕ → Option String) → Option (List Connection) → List PortEntry
table_or_empty proc_name none = []
table_or_empty proc_name (some connections) = get_tcp_table proc_name connections

-- What psutil lists when it is asked first, and when it is asked again.
unfoldable pub ports_of :
    (ℕ → Option String) → Option (List Connection) → Option (List Connection) → List PortEntry
ports_of proc_name (some connections) again = port_entries (0 ∷ 4 ∷ []) proc_name connections []
ports_of proc_name none again = table_or_empty proc_name again
