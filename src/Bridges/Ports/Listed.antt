-- ===== src/Bridges/Ports/Listed.antt =====
-- Which connection `get_port_pid_map` lists for a port.
use port_sentinel.Base.{
  All, All-map, ◌≡◌, ◌≢◌, refl, sym, ap, ◌∙◌, Bool-cases, inl, inr, arith, String, ℕ, List, [], ◌∷◌,
  Bool, true, false, Option, some, none, contains, nat_keys, ◌==◌, if◌then◌else◌, ◌++◌,
}
use port_sentinel.Base.Dict.{find_by}
use port_sentinel.Base.Unique.{Unique}
use port_sentinel.Bridges.Ports.{
  Connection, PortEntry, listed_port, make_entry, list_port, port_entries, get_port_pid_map,
}

abbrev pub is_port : ℕ → Option ℕ → Bool
is_port k none = false
is_port k (some port) = port == k

-- The first connection at a port.
abbrev pub first_at : ℕ → List Connection → Option Connection
first_at k [] = none
first_at k (conn ∷ rest) =
    if is_port k (listed_port conn.local_port) then some conn else first_at k rest

module _ (protected : List ℕ) (proc_name : ℕ → Option String) where
  abbrev pub entry_of : ℕ → Option Connection → Option PortEntry
  entry_of k none = none
  entry_of k (some conn) = some (make_entry protected proc_name k conn)

  abbrev entries : List Connection → List ℕ → List PortEntry
  entries conns seen = port_entries protected proc_name conns seen

  -- What a list of entries has to do with the ports seen before it and with the first connections.
  record Lists (es : List PortEntry) (seen : List ℕ) (firsts : ℕ → Option Connection) : Type 0 where
    fresh : All (λ e. contains seen e.port ≡ false) es
    unique : Unique (λ e. e.port) es
    finds :
        (k : ℕ)
        → find_by (λ e. e.port) k es ≡ (if contains seen k then none else entry_of k (firsts k))

  unseen :
      (port : ℕ) (seen : List ℕ) (e : PortEntry)
      → contains (port ∷ seen) e.port ≡ false
      → (contains seen e.port ≡ false) × (e.port ≢ port)
  unfolding contains
  unseen port seen e h = ground (arith, h)

  behind :
      (conn : Connection) (rest : List Connection) (seen : List ℕ) (o : Option ℕ)
      → ((next : List ℕ) → Lists (entries rest next) next (λ k. first_at k rest))
      → let (results, next) = list_port protected proc_name conn o seen in
        Lists
          (results ++ entries rest next)
          seen
          (λ k. if is_port k o then some conn else first_at k rest)
  unfolding find_by contains make_entry
  behind conn rest seen none h = h seen
  behind conn rest seen (some port) h = elim (Bool-cases (contains seen port)) [
    | inl y ↦ rw y (record {
      fresh = (h seen).fresh;
      unique = (h seen).unique;
      finds = λ k. (h seen).finds k ∙ elim (Bool-cases (port == k)) [
        | inl e ↦
            let there : contains seen k ≡ true =
              ap (contains seen) (sym ((nat_keys.same_iff port k).0 e)) ∙ y in
            rw there refl
        | inr m ↦ rw m refl
      ];
    })
    | inr n ↦
        let after = h (port ∷ seen) in
        rw n (record {
          fresh = (
            n,
            All-map (entries rest (port ∷ seen)) (λ e g. (unseen port seen e g).0) after.fresh,
          );
          unique = (
            All-map (entries rest (port ∷ seen)) (λ e g. (unseen port seen e g).1) after.fresh,
            after.unique,
          );
          finds = λ k. elim (Bool-cases (port == k)) [
            | inl e ↦
                let same : port ≡ k = (nat_keys.same_iff port k).0 e in
                let missing : contains seen k ≡ false = ap (contains seen) (sym same) ∙ n in
                rw (e, missing) (ap (λ j. some (make_entry protected proc_name j conn)) same)
            | inr m ↦ rw m (after.finds k ∙ rw m refl)
          ];
        })
  ]

  port_entries-Lists :
      (conns : List Connection) (seen : List ℕ)
      → Lists (entries conns seen) seen (λ k. first_at k conns)
  unfolding port_entries find_by
  port_entries-Lists [] seen = record {
    fresh = tt;
    unique = tt;
    finds = λ k. elim (Bool-cases (contains seen k)) [ inl y ↦ rw y refl | inr n ↦ rw n refl ];
  }
  port_entries-Lists (conn ∷ rest) seen =
      behind conn rest seen (listed_port conn.local_port) (λ next. port_entries-Lists rest next)

  -- If psutil lists the connections, each port has at most one entry, made of the first connection
  -- at that port, and a port other than 0 of a connection has one.
  pub get_port_pid_map_correct :
      (conns : List Connection)
      → let ports = get_port_pid_map protected proc_name (some conns) in
        Unique (λ e. e.port) ports
        × ((k : ℕ) → find_by (λ e. e.port) k ports ≡ entry_of k (first_at k conns))
  unfolding get_port_pid_map contains
  get_port_pid_map_correct conns =
      let done = port_entries-Lists conns [] in (done.unique, done.finds)
