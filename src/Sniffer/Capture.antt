-- ===== src/Sniffer/Capture.antt =====
-- `SnifferProcess`: accumulation of packets, and the flush to shared memory. The segment is
-- attached (`_shm` is not `None`), as it is from `run` on.
pub mod Flush
pub mod Packets
pub mod Keep
pub mod Synced
use port_sentinel.Sniffer.Entry.{Platform}
use port_sentinel.Sniffer.Memory.{Buf}
use port_sentinel.Sniffer.Shm.{PortEntry, write_port_entry}
use port_sentinel.Base.Dict.{Dict, get, put}
use port_sentinel.Base.Time.{seconds}
use port_sentinel.Base.{
  ℕ, ◌+◌, max, Bool, true, false, not, ◌&&◌, String, List, [], ◌∷◌, Option, none, some, or_else,
  keep, length, ltb, leb, if◌then◌else◌, ◌==◌, nat_keys,
}

-- `[in, out, pid, proto, risk, remote_ip, last_seen]`
pub record Traffic : Type 0 where
  pub bytes_in : ℕ
  pub bytes_out : ℕ
  pub pid : ℕ
  pub protocol : ℕ
  pub risk : ℕ
  pub remote_ip : String
  pub last_seen : ℕ

abbrev pub Accum : Type 0
Accum = Dict ℕ Traffic

unfoldable pub new_traffic : ℕ → Traffic
new_traffic protocol = record {
  bytes_in = 0;
  bytes_out = 0;
  pid = 0;
  protocol = protocol;
  risk = 0;
  remote_ip = "0.0.0.0";
  last_seen = 0;
}

-- The layers of a packet that the callback looks at.
pub data Transport : Type 0 where
  tcp udp : (sport dport : ℕ) → Transport
  other : Transport

pub record Packet : Type 0 where
  pub has_ip : Bool
  pub src : String
  pub dst : String
  pub size : ℕ
  pub transport : Transport

-- `port > 0 and port < MAX_PORTS`
unfoldable pub is_port : ℕ → Bool
is_port port = ltb 0 port && ltb port 65536

module _ (risk_of : String → ℕ) where
  unfoldable pub count_out : Accum → ℕ → ℕ → String → ℕ → ℕ → Accum
  count_out accum port protocol remote_ip size now =
      if is_port port
      then (let t = or_else (get accum port) (new_traffic protocol) in
          put accum port (record t {
            bytes_out = t.bytes_out + size;
            risk = max t.risk (risk_of remote_ip);
            remote_ip = remote_ip;
            last_seen = now;
          }))
      else accum

  unfoldable pub count_in : Accum → ℕ → ℕ → String → ℕ → ℕ → Accum
  count_in accum port protocol remote_ip size now =
      if is_port port
      then (let t = or_else (get accum port) (new_traffic protocol) in
          put accum port (record t {
            bytes_in = t.bytes_in + size;
            risk = max t.risk (risk_of remote_ip);
            remote_ip = remote_ip;
            last_seen = now;
          }))
      else accum

  -- Source port first, then destination port; `now` and `later` are the two readings of the clock.
  unfoldable pub count_both : Accum → Packet → ℕ → ℕ → ℕ → ℕ → ℕ → Accum
  count_both accum packet protocol sport dport now later =
      count_in (count_out accum sport protocol packet.dst packet.size now) dport protocol packet.src
        packet.size later

  unfoldable pub packet_callback : Accum → Packet → ℕ → ℕ → Accum
  packet_callback accum packet now later =
      if not packet.has_ip then accum else (elim packet.transport [
        | tcp sport dport ↦ count_both accum packet 0 sport dport now later
        | udp sport dport ↦ count_both accum packet 1 sport dport now later
        | other ↦ accum
      ])

-- A connection of `psutil.net_connections`: its local port (0 for none) and its process.
pub record NetConnection : Type 0 where
  pub local_port : ℕ
  pub pid : Option ℕ

-- The connections listed before the call fails, if it does.
unfoldable pub build_pid_map : Dict ℕ ℕ → List NetConnection → Dict ℕ ℕ
build_pid_map pid_map [] = pid_map
build_pid_map pid_map (c ∷ cs) =
    build_pid_map
      (if c.local_port == 0 then pid_map else put pid_map c.local_port (or_else c.pid 0)) cs

pub record Sniffer : Type 0 where
  pub buf : Buf
  pub accum : Accum
  pub cached_pid_map : Dict ℕ ℕ
  pub last_pid_map_update : ℕ

-- "Mark inactive if no packets received for 30 seconds".
unfoldable pub is_live : ℕ → Traffic → Bool
is_live now t = leb now (t.last_seen + seconds 30)

unfoldable pub flush_pid : Dict ℕ ℕ → ℕ → ℕ → Traffic → ℕ
flush_pid pid_map now port t = if is_live now t then or_else (get pid_map port) t.pid else t.pid

unfoldable pub to_entry : Dict ℕ ℕ → ℕ → ℕ → Traffic → PortEntry
to_entry pid_map now port t = record {
  port = port;
  bytes_in = t.bytes_in;
  bytes_out = t.bytes_out;
  pid = flush_pid pid_map now port t;
  protocol = t.protocol;
  active = if is_live now t then 1 else 0;
  risk_score = t.risk;
  remote_ip = t.remote_ip;
}

-- The loop under the lock: the memory, the accumulated entries, and whether it ran to its end. A
-- field out of range raises, and leaves what was written before.
unfoldable pub flush_entries : Platform → List ℕ → Dict ℕ ℕ → ℕ → Buf → Accum → Buf × Accum × Bool
flush_entries pf key pid_map now buf [] = (buf, [], true)
flush_entries pf key pid_map now buf ((port, t) ∷ rest) =
    elim (write_port_entry pf key buf (to_entry pid_map now port t)) [
      | none ↦ (buf, (port, t) ∷ rest, false)
      | some buf' ↦
          let (last, left, done) = flush_entries pf key pid_map now buf' rest in
          (last, (port, record t { pid = flush_pid pid_map now port t }) ∷ left, done)
    ]

-- Ephemeral ports that were silent for five minutes are dropped once there are too many.
unfoldable pub drop_stale : ℕ → Accum → Accum
drop_stale now accum =
    if ltb 5000 (length accum)
    then keep (λ e. not (ltb (e.1.last_seen + seconds 300) now)) accum
    else accum

unfoldable pub refresh : Sniffer → ℕ → List NetConnection → Sniffer
refresh s now connections =
    if ltb (s.last_pid_map_update + seconds 2) now
    then record s { cached_pid_map = build_pid_map [] connections; last_pid_map_update = now }
    else s

-- The new state, and whether the flush ran to its end.
unfoldable pub flush_to_shm : Platform → List ℕ → Sniffer → ℕ → List NetConnection → Sniffer × Bool
flush_to_shm pf key s now connections =
    let s' = refresh s now connections in
    let (buf, accum, done) = flush_entries pf key s'.cached_pid_map now s'.buf s'.accum in
    (record s' { buf = buf; accum = if done then drop_stale now accum else accum }, done)
