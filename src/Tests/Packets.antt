-- ===== src/Tests/Packets.antt =====
-- The bridges of macOS and Windows on small firewalls.
use port_sentinel.Bridges.Ports.Listed.{entry_of, first_at, get_port_pid_map_correct}
use port_sentinel.Base.Unique.{Unique}
use port_sentinel.Bridges.Ports.{Connection, get_port_pid_map}
use port_sentinel.Bridges.Darwin.Lsof.{parse_lsof_output, lsof_lines, lsof_line, after_colon}
use port_sentinel.Base.{
  List, String, ℕ, Bool, ◌≡◌, [], ◌∷◌, none, ◌++◌, refl, true, ◌||◌, ◌&&◌, not, ◌==◌, list_keys,
  nat_keys, text_keys, if◌then◌else◌, contains, some, false,
}
use port_sentinel.Base.Dict.{get, values, find_by}
use port_sentinel.Base.Words.{codes, skip_spaces, split_lines, strip, read_number}
use port_sentinel.Base.Result.{ok}
use port_sentinel.Bridges.{is_done, Outcome, finished}
use port_sentinel.Bridges.Darwin.{PfRules, PfCommand, file_lines, Disk, whole, to_end}
use port_sentinel.Bridges.Darwin.Reading.{restart, IsSynced}
use port_sentinel.Bridges.Darwin.Calls.{Call, blocks, unblocks, cleans_up, after_calls, wanted}
use port_sentinel.Bridges.Darwin.Restart.{IsWorking, unblock_port-restart}
use port_sentinel.Bridges.Windows.{NetshCommand, add_rule, delete_rule, show_rules, find_names}
use port_sentinel.Bridges.Windows.Rules.{
  IsNetsh, is_valid, protocol_of, first, second, returned, is_rule, block_port_added, is_served,
  is_own,
}
use port_sentinel.Bridges.Windows.Removal.{unblock_port_after_block}

abbrev pfctl : PfCommand → List PfCommand → Outcome × List PfCommand
pfctl c s = (finished 0 [], c ∷ s)

abbrev whole_files : Disk (List PfCommand)
whole_files = record { writing = λ s. whole; reading = λ s. to_end; can_remove = λ s. true }

pfctl-IsWorking : IsWorking whole_files pfctl
pfctl-IsWorking = record {
  writes = λ s. refl;
  reads = λ s. refl;
  removes = λ s. refl;
  flushes = λ s. refl;
}

abbrev some_calls : List (Call whole_files pfctl "Darwin")
some_calls =
    blocks 443 "tcp" "en0"
    ∷ cleans_up
    ∷ blocks 8080 "TCP" "en0"
    ∷ blocks 53 "udp" "en1"
    ∷ blocks 80 "icmp" "en1"
    ∷ unblocks 53
    ∷ []

abbrev no_rules : PfRules
no_rules = record { active = []; file = none }

no_rules-IsSynced : IsSynced no_rules
unfolding contains
no_rules-IsSynced = record { distinct = tt; rules = tt; same = refl }

unblock_port-restart_example :
    let (p, t) = after_calls whole_files pfctl "Darwin" some_calls (no_rules, []) in
    let (answer, q, u) =
      port_sentinel.Bridges.Darwin.unblock_port whole_files pfctl "Darwin" 8080 (restart p) t in
    (answer ≡ ok true)
    × ((k : ℕ)
        → get q.active k ≡ (
            if 8080 == k
            then none
            else wanted whole_files pfctl "Darwin" some_calls (get no_rules.active) k))
    × (file_lines q.file ≡ values q.active)
unfolding contains codes
unblock_port-restart_example =
    unblock_port-restart whole_files pfctl "Darwin" pfctl-IsWorking no_rules some_calls 8080 []
      no_rules-IsSynced (refl, (tt, (refl, (refl, (refl, (tt, tt))))))

-- The names of what `netsh advfirewall firewall show rule name=all` prints.
names_printed :
    find_names 0 (
      codes "Rule Name:            Vigilant_Block_Out_80"
      ++ 10 ∷ codes "Enabled:              Yes"
      ++ 10 ∷ codes "Rule Name:            Other_80"
      ++ 10 ∷ codes "Rule Name: Sentinel_Block_In_80"
      ++ 10 ∷ [])
    ≡ codes "Vigilant_Block_Out_80" ∷ codes "Sentinel_Block_In_80" ∷ []
unfolding find_names codes skip_spaces port_sentinel.Bridges.Windows.entry_at
names_printed = refl

-- A firewall as the set of its rules.
abbrev Firewall : Type 0
Firewall = List ℕ → List String → Bool

abbrev shown_text : List ℕ
shown_text = codes "Rule Name:            Vigilant_Block_Out_80" ++ 10 ∷ []

abbrev netsh : NetshCommand → Firewall → Outcome × Firewall
netsh (add_rule name settings) s = (finished 0 [], λ n x. s n x || name == n && settings == x)
netsh (delete_rule name) s = (finished 0 [], λ n x. s n x && not (name == n))
netsh show_rules s = (finished 0 shown_text, s)

netsh-IsNetsh : IsNetsh netsh (λ s. s)
netsh-IsNetsh = record {
  add = λ name settings s n x. refl;
  delete = λ name s n x. refl;
  delete_ends = λ name s. refl;
  show = λ s n x. refl;
}

abbrev one_rule : Firewall
one_rule n x = n == codes "Other"

block_port_added_example :
    let (answer, t) = port_sentinel.Bridges.Windows.block_port netsh "Windows" 80 "tcp" one_rule in
    let valid = is_valid "Windows" 80 "tcp" in
    let known = protocol_of "tcp" in
    let a = is_done (first netsh "Windows" (λ s. s) netsh-IsNetsh 80 known one_rule).0 in
    let b = is_done (second netsh "Windows" (λ s. s) netsh-IsNetsh 80 known one_rule).0 in
    (returned answer ≡ (valid && (a && b)))
    × ((n : List ℕ) (x : List String)
        → t n x ≡ (
            one_rule n x
            || (valid
                && (a
                    && (is_rule "Out" "out" 80 known n x || b && is_rule "In" "in" 80 known n x)))))
block_port_added_example = block_port_added netsh "Windows" (λ s. s) netsh-IsNetsh 80 "tcp" one_rule

abbrev unblocked : Firewall
unblocked =
    (port_sentinel.Bridges.Windows.unblock_port netsh "Windows" 80
      (port_sentinel.Bridges.Windows.block_port netsh "Windows" 80 "tcp" one_rule).1).1

unblock_port_after_block_example :
    unblocked (codes "Other") []
    ≡ (one_rule (codes "Other") [] && not (is_served "Windows" 80 && is_own 80 (codes "Other")))
unblock_port_after_block_example =
    unblock_port_after_block netsh "Windows" (λ s. s) netsh-IsNetsh 80 "tcp" one_rule
      (codes "Other") []

-- A connection from port 5000 to port 443 of another host is listed under port 443.
remote_port_listed :
    parse_lsof_output (codes "p12" ++ 10 ∷ codes "capp" ++ 10 ∷ codes "n1.2.3.4:5000->5.6.7.8:443")
    ≡ (record {
      port = 443;
      pid = 12;
      app_name = codes "app";
      protocol = "TCP";
      status = "ESTABLISHED";
    })
      ∷ []
unfolding parse_lsof_output lsof_lines lsof_line after_colon split_lines strip skip_spaces codes
    read_number contains
remote_port_listed = refl

-- Two connections at one port, and one that has no port.
abbrev three_connections : List Connection
three_connections =
    (record { local_port = some 22; pid = some 7; is_stream = true; status = "LISTEN" })
    ∷ (record { local_port = none; pid = none; is_stream = false; status = "NONE" })
    ∷ (record { local_port = some 22; pid = some 9; is_stream = true; status = "ESTABLISHED" })
    ∷ []

get_port_pid_map_correct_example :
    let ports = get_port_pid_map (0 ∷ 1 ∷ 2 ∷ []) (λ pid. some "sshd") (some three_connections) in
    Unique (λ e. e.port) ports
    × ((k : ℕ)
        → find_by (λ e. e.port) k ports
          ≡ entry_of (0 ∷ 1 ∷ 2 ∷ []) (λ pid. some "sshd") k (first_at k three_connections))
get_port_pid_map_correct_example =
    get_port_pid_map_correct (0 ∷ 1 ∷ 2 ∷ []) (λ pid. some "sshd") three_connections
