-- ===== src/Tests/Sniffing.antt =====
-- The sniffer at concrete inputs.
use port_sentinel.Sniffer.Bits.{test_bit-zero}
use port_sentinel.Sniffer.Capture.Keep.{packet_callback-IsSynced}
use port_sentinel.Base.Time.{seconds}
use port_sentinel.Sniffer.Entry.{Platform, max_ports}
use port_sentinel.Sniffer.Memory.{Buf}
use port_sentinel.Sniffer.Shm.Contents.{Holds, written}
use port_sentinel.Sniffer.Shm.{read_all_active_ports, PortEntry, write_port_entry}
use port_sentinel.Base.{
  nat_keys, ℕ, ◌≡◌, if◌then◌else◌, [], length, Option, List, String, true, ◌^◌, ◌+◌, suc, ◌∷◌, refl,
  none, some, arith, sym, ap, zero, ◌%◌,
}
use port_sentinel.Sniffer.Capture.{
  Sniffer, Packet, NetConnection, flush_to_shm, packet_callback, tcp,
}
use port_sentinel.Sniffer.Capture.Packets.{out_at, in_at, leaves, arrives, packet_callback_counts}
use port_sentinel.Sniffer.Shm.Write.{write_port_entry-Holds, IsWritable}
use port_sentinel.Sniffer.Shm.Scan.{read_all_active_ports-collect, collect}
use port_sentinel.Sniffer.Capture.Synced.{flush_to_shm_correct, contents, IsSynced}

-- A platform whose digests are zeros and that knows one address.
abbrev pub zeros : ℕ → List ℕ
zeros zero = []
zeros (suc n) = 0 ∷ zeros n

pub length-zeros : (n : ℕ) → length (zeros n) ≡ n
length-zeros zero = refl
length-zeros (suc n) = ap suc (length-zeros n)

pub size_of_eight : (bs : List ℕ) → some (8 ∷ 8 ∷ 8 ∷ 8 ∷ []) ≡ some bs → length bs ≡ 4
size_of_eight bs e = let same : 8 ∷ 8 ∷ 8 ∷ 8 ∷ [] ≡ bs = ground arith in rw (sym same) refl

abbrev pub platform : Platform
platform = record {
  hmac = λ key bytes. zeros 32;
  inet_aton = λ s. some (8 ∷ 8 ∷ 8 ∷ 8 ∷ []);
  inet_ntoa = λ bs. some "8.8.8.8";
  digest_size = λ key bytes. length-zeros 32;
  address_size = λ s bs e. size_of_eight bs e;
}

abbrev pub key : List ℕ
key = 1 ∷ 2 ∷ []

abbrev pub empty : ℕ → ℕ
empty i = 0

abbrev nothing : ℕ → Option PortEntry
nothing p = none

pub empty-Holds : Holds platform key empty nothing
empty-Holds = record {
  bytes = λ i lt. omega arith;
  marked = λ p lt. test_bit-zero (p % 8) (omega arith);
  stored = λ p e lt h. cc;
}

abbrev pub entry : PortEntry
entry = record {
  port = 443;
  bytes_in = 2 ^ 64 + 5;
  bytes_out = 7;
  pid = 4242;
  protocol = 0;
  active = 1;
  risk_score = 3;
  remote_ip = "8.8.8.8";
}

pub entry-IsWritable : IsWritable entry
entry-IsWritable = record {
  port = omega arith;
  pid = omega arith;
  protocol = omega arith;
  active = omega arith;
  risk_score = omega arith;
}

write_port_entry-Holds_example :
    (buf' : Buf) × (write_port_entry platform key empty entry ≡ some buf')
    × Holds platform key buf' (written platform key nothing entry)
write_port_entry-Holds_example =
    write_port_entry-Holds platform key empty nothing entry empty-Holds entry-IsWritable

abbrev pub one_entry : Buf
one_entry = (write_port_entry-Holds platform key empty nothing entry empty-Holds entry-IsWritable).0

read_all_active_ports-collect_example :
    read_all_active_ports platform key one_entry
    ≡ collect (written platform key nothing entry) 0 max_ports
read_all_active_ports-collect_example =
    read_all_active_ports-collect platform key one_entry (written platform key nothing entry)
      (write_port_entry-Holds platform key empty nothing entry empty-Holds entry-IsWritable).2

abbrev packet : Packet
packet = record {
  has_ip = true;
  src = "10.0.0.2";
  dst = "8.8.8.8";
  size = 60;
  transport = tcp 443 5000;
}

abbrev risk_of : String → ℕ
risk_of ip = 3

packet_callback_counts_example :
    (out_at (packet_callback risk_of [] packet 5 6) 443
      ≡ out_at [] 443 + (if leaves packet 443 then packet.size else 0))
    × (in_at (packet_callback risk_of [] packet 5 6) 443
        ≡ in_at [] 443 + (if arrives packet 443 then packet.size else 0))
packet_callback_counts_example = packet_callback_counts risk_of [] packet 5 6 443

abbrev sniffer : Sniffer
sniffer = record { buf = empty; accum = []; cached_pid_map = []; last_pid_map_update = 0 }

sniffer-IsSynced : IsSynced platform key sniffer nothing
sniffer-IsSynced = record {
  holds = empty-Holds;
  tracked = λ p e. refl;
  distinct = tt;
  fits = tt;
  pids = tt;
}

abbrev busy : Sniffer
busy = record sniffer { accum = packet_callback risk_of sniffer.accum packet 5 6 }

busy-IsSynced : IsSynced platform key busy nothing
busy-IsSynced =
    packet_callback-IsSynced risk_of (λ ip. omega arith) platform key sniffer nothing packet 5 6
      sniffer-IsSynced

packet_callback-IsSynced_example :
    IsSynced platform key
      (record busy { accum = packet_callback risk_of busy.accum packet 7 8 })
      nothing
packet_callback-IsSynced_example =
    packet_callback-IsSynced risk_of (λ ip. omega arith) platform key busy nothing packet 7 8
      busy-IsSynced

abbrev connections : List NetConnection
connections = (record { local_port = 443; pid = some 4242 }) ∷ []

flush_to_shm_correct_example :
    ((flush_to_shm platform key busy (seconds 3) connections).1 ≡ true)
    × IsSynced platform key
        (flush_to_shm platform key busy (seconds 3) connections).0
        (contents platform key (seconds 3) busy connections)
    × (read_all_active_ports platform key
          (flush_to_shm platform key busy (seconds 3) connections).0.buf
        ≡ collect (contents platform key (seconds 3) busy connections) 0 max_ports)
flush_to_shm_correct_example =
    flush_to_shm_correct platform key (seconds 3) busy nothing connections busy-IsSynced
      (omega arith, tt)
