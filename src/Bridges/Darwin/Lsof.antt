-- ===== src/Bridges/Darwin/Lsof.antt =====
-- `_parse_lsof_output` and `get_port_pid_map` of backend/os_adapters/darwin_bridge.py. The output
-- is a list of code points, and `int` takes decimal digits only.
use port_sentinel.Bridges.Ports.Listed.{get_port_pid_map_correct}
use port_sentinel.Base.{
  String, ℕ, List, [], ◌∷◌, ◌++◌, Option, some, none, contains, nat_keys, or_else, ◌==◌,
  if◌then◌else◌, zero, suc, ◌≡◌, ◌≢◌, All, All-append, All-map, Bool-cases, inl, inr, true, sym, ap,
  map, ◌∙◌, arith, same_refl, refl,
}
use port_sentinel.Base.Unique.{Unique}
use port_sentinel.Base.Words.{codes, strip, split_lines, read_number}
use port_sentinel.Bridges.{Outcome, finished, timed_out, not_run}
use port_sentinel.Bridges.Ports.{Connection, PortEntry, get_port_pid_map}

pub record LsofEntry : Type 0 where
  pub port : ℕ
  pub pid : ℕ
  pub app_name : List ℕ
  pub protocol : String
  pub status : String

pub record LsofLoop : Type 0 where
  pub results : List LsofEntry
  pub seen_ports : List ℕ
  pub current_pid : ℕ
  pub current_name : List ℕ

abbrev pub or_later : Option (List ℕ) → List ℕ → ℕ → Option (List ℕ)
or_later (some t) s c = some t
or_later none s c = if c == 58 then some s else none

-- `addr.rsplit(":", 1)[1]`, if there is a colon.
unfoldable pub after_colon : List ℕ → Option (List ℕ)
after_colon [] = none
after_colon (c ∷ s) = or_later (after_colon s) s c

abbrev pub add_address : Option ℕ → LsofLoop → LsofLoop
add_address none l = l
add_address (some port) l = if contains l.seen_ports port then l else record l {
  seen_ports = port ∷ l.seen_ports;
  results =
      l.results
      ++ (record {
        port = port;
        pid = l.current_pid;
        app_name = l.current_name;
        protocol = "TCP";
        status = "ESTABLISHED";
      })
        ∷ [];
}

abbrev pub port_of : Option (List ℕ) → Option ℕ
port_of none = none
port_of (some digits) = read_number digits

-- Lines start with p (112), c (99) or n (110).
unfoldable pub lsof_line : List ℕ → LsofLoop → LsofLoop
lsof_line [] l = l
lsof_line (c ∷ s) l =
    if c == 112
    then record l { current_pid = or_else (read_number s) 0 }
    else if c == 99
    then record l { current_name = s }
    else if c == 110
    then add_address (port_of (after_colon s)) l
    else l

unfoldable pub lsof_lines : List (List ℕ) → LsofLoop → LsofLoop
lsof_lines [] l = l
lsof_lines (line ∷ lines) l = lsof_lines lines (lsof_line line l)

unfoldable pub parse_lsof_output : List ℕ → List LsofEntry
parse_lsof_output stdout =
    (lsof_lines (split_lines (strip stdout)) (record {
      results = [];
      seen_ports = [];
      current_pid = 0;
      current_name = codes "Unknown";
    })).results

-- What both ways of listing give of an entry.
abbrev pub of_psutil : PortEntry → LsofEntry
of_psutil e = record {
  port = e.port;
  pid = e.pid;
  app_name = codes e.app_name;
  protocol = e.protocol;
  status = e.status;
}

-- `_get_ports_psutil`
abbrev pub get_ports_psutil : (ℕ → Option String) → Option (List Connection) → List LsofEntry
get_ports_psutil proc_name connections =
    map of_psutil (get_port_pid_map (0 ∷ 1 ∷ []) proc_name connections)

-- `lsof` is how the command ends, and `connections` what psutil lists, if it is allowed to.
unfoldable pub list_ports :
    (ℕ → Option String) → Outcome → Option (List Connection) → List LsofEntry
list_ports proc_name (finished zero out) connections = parse_lsof_output out
list_ports proc_name (finished (suc code) out) connections = get_ports_psutil proc_name connections
list_ports proc_name timed_out connections = get_ports_psutil proc_name connections
list_ports proc_name not_run connections = get_ports_psutil proc_name connections

Unique-append :
    (xs : List LsofEntry) (x : LsofEntry)
    → Unique (λ e. e.port) xs
    → All (λ e. e.port ≢ x.port) xs
    → Unique (λ e. e.port) (xs ++ x ∷ [])
Unique-append [] x u a = (tt, tt)
Unique-append (y ∷ xs) x u a = (
  All-append (λ e. e.port ≢ y.port) xs (x ∷ []) u.0 ((λ q. a.0 (sym q)), tt),
  Unique-append xs x u.1 a.1,
)

record IsListing (l : LsofLoop) : Type 0 where
  unique : Unique (λ e. e.port) l.results
  seen : All (λ e. contains l.seen_ports e.port ≡ true) l.results

add_address-IsListing : (o : Option ℕ) (l : LsofLoop) → IsListing l → IsListing (add_address o l)
unfolding contains
add_address-IsListing none l h = h
add_address-IsListing (some port) l h = elim (Bool-cases (contains l.seen_ports port)) [
  | inl y ↦ rw y (record { unique = h.unique; seen = h.seen })
  | inr n ↦ rw n (record {
    unique = Unique-append l.results _ h.unique (
        All-map l.results
          (λ e g. λ q.
            let there : contains l.seen_ports port ≡ true =
              ap (contains l.seen_ports) (sym q) ∙ g in
            cc)
          h.seen);
    seen =
        All-append (λ e. contains (port ∷ l.seen_ports) e.port ≡ true) l.results _
          (All-map l.results (λ e g. ground (arith, g)) h.seen) (rw (same_refl port) refl, tt);
  })
]

lsof_line-IsListing : (line : List ℕ) (l : LsofLoop) → IsListing l → IsListing (lsof_line line l)
unfolding lsof_line
lsof_line-IsListing [] l h = h
lsof_line-IsListing (c ∷ s) l h = elim (Bool-cases (c == 112)) [
  | inl y ↦ rw y (record { unique = h.unique; seen = h.seen })
  | inr n ↦ elim (Bool-cases (c == 99)) [
    | inl y ↦ rw (n, y) (record { unique = h.unique; seen = h.seen })
    | inr m ↦ elim (Bool-cases (c == 110)) [
      | inl y ↦ rw (n, m, y) (add_address-IsListing (port_of (after_colon s)) l h)
      | inr k ↦ rw (n, m, k) h
    ]
  ]
]

lsof_lines-IsListing :
    (lines : List (List ℕ)) (l : LsofLoop) → IsListing l → IsListing (lsof_lines lines l)
unfolding lsof_lines
lsof_lines-IsListing [] l h = h
lsof_lines-IsListing (line ∷ lines) l h =
    lsof_lines-IsListing lines (lsof_line line l) (lsof_line-IsListing line l h)

All-of_psutil :
    (port : ℕ) (es : List PortEntry)
    → All (λ e. e.port ≢ port) es
    → All (λ e. e.port ≢ port) (map of_psutil es)
All-of_psutil port [] a = tt
All-of_psutil port (e ∷ es) a = (a.0, All-of_psutil port es a.1)

Unique-of_psutil :
    (es : List PortEntry) → Unique (λ e. e.port) es → Unique (λ e. e.port) (map of_psutil es)
Unique-of_psutil [] u = tt
Unique-of_psutil (e ∷ es) u = (All-of_psutil e.port es u.0, Unique-of_psutil es u.1)

psutil-Unique :
    (proc_name : ℕ → Option String) (connections : Option (List Connection))
    → Unique (λ e. e.port) (get_ports_psutil proc_name connections)
unfolding get_port_pid_map
psutil-Unique proc_name none = tt
psutil-Unique proc_name (some connections) =
    Unique-of_psutil (get_port_pid_map (0 ∷ 1 ∷ []) proc_name (some connections))
      (get_port_pid_map_correct (0 ∷ 1 ∷ []) proc_name connections).0

-- However lsof ends and whatever it prints, no port is listed twice.
pub list_ports-Unique :
    (proc_name : ℕ → Option String) (lsof : Outcome) (connections : Option (List Connection))
    → Unique (λ e. e.port) (list_ports proc_name lsof connections)
unfolding list_ports parse_lsof_output
list_ports-Unique proc_name (finished zero out) connections =
    (lsof_lines-IsListing (split_lines (strip out)) _ (record { unique = tt; seen = tt })).unique
list_ports-Unique proc_name (finished (suc code) out) connections =
    psutil-Unique proc_name connections
list_ports-Unique proc_name timed_out connections = psutil-Unique proc_name connections
list_ports-Unique proc_name not_run connections = psutil-Unique proc_name connections
