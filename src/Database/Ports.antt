-- ===== src/Database/Ports.antt =====
-- The blocked ports as a map from ports to their rows.
use port_sentinel.Base.Sort.{IsSorted}
use port_sentinel.Database.Engine.{Engine, first}
use port_sentinel.Database.Tables.{Database, BlockedPort}
use port_sentinel.Database.Stores.{
  add_blocked_port, remove_blocked_port, get_blocked_ports, clear_blocked_ports,
}
use port_sentinel.Database.Keyed.{
  IsKeyed, with_key, first-delete, keep-IsKeyed, length-keep-key, key_of_first,
}
use port_sentinel.Database.Upserts.{first-upsert, upsert-IsKeyed, first-order_by, upserted}
use port_sentinel.Base.{
  ℕ, String, Option, List, nat_keys, none, ◌∷◌, keep, ◌≡◌, [], if◌then◌else◌, false, ◌==◌, refl,
  not, ◌∙◌, some, true, Option-cases, ap, inl, length, ◌≤◌, inr,
}

-- The calls that change the table, with the time at which each ran.
pub data PortCall : Type 0 where
  adds : (port : ℕ) (block_type reason : String) (now : ℕ) → PortCall
  removes : (port : ℕ) → PortCall
  clears : PortCall

-- What the table should hold of a port; calls are listed with the last one first.
abbrev pub expected : List PortCall → ℕ → Option BlockedPort
expected [] p = none
expected (adds port block_type reason now ∷ earlier) p =
    if port == p
    then some (record { port = port; block_type = block_type; blocked_at = now; reason = reason })
    else expected earlier p
expected (removes port ∷ earlier) p = if port == p then none else expected earlier p
expected (clears ∷ earlier) p = none

keep-none {ℓ} : {R : Type ℓ} (rs : List R) → keep (λ r. false) rs ≡ []
unfolding keep
keep-none [] = refl
keep-none (r ∷ rest) = keep-none rest

upserted_row :
    (port : ℕ) (block_type reason : String) (now : ℕ) (rs : List BlockedPort)
    → upserted
        (λ r. record r { block_type = block_type; blocked_at = now; reason = reason })
        (record { port = port; block_type = block_type; blocked_at = now; reason = reason })
        (first (with_key (λ r. r.port) port) rs)
      ≡ record { port = port; block_type = block_type; blocked_at = now; reason = reason }
upserted_row port block_type reason now rs =
    elim (Option-cases (first (with_key (λ r. r.port) port) rs)) [
      | inl e ↦ rw e refl
      | inr (r, e) ↦
          let same = key_of_first (λ r. r.port) port rs r e in
          rw e (λ i. record {
            port = same i;
            block_type = block_type;
            blocked_at = now;
            reason = reason;
          })
    ]

module _ (sql : Engine) {F : Type 0} where
  abbrev pub apply_call : Database sql F → PortCall → Database sql F
  apply_call db (adds port block_type reason now) =
      add_blocked_port sql db port block_type reason now
  apply_call db (removes port) = remove_blocked_port sql db port
  apply_call db clears = (clear_blocked_ports sql db).0

  abbrev pub after_calls : Database sql F → List PortCall → Database sql F
  after_calls db [] = db
  after_calls db (c ∷ earlier) = apply_call (after_calls db earlier) c

  abbrev table : Database sql F → List BlockedPort
  table db = sql.rows BlockedPort db.blocked

  after_calls-IsKeyed :
      (db : Database sql F) (calls : List PortCall)
      → table db ≡ []
      → IsKeyed (λ r. r.port) (table (after_calls db calls))
  unfolding add_blocked_port remove_blocked_port clear_blocked_ports
  after_calls-IsKeyed db [] empty = rw empty tt
  after_calls-IsKeyed db (adds port block_type reason now ∷ earlier) empty =
      upsert-IsKeyed sql (λ r. r.port) port
        (λ r. record r { block_type = block_type; blocked_at = now; reason = reason })
        (record { port = port; block_type = block_type; blocked_at = now; reason = reason })
        (after_calls db earlier).blocked (λ r. refl) refl (after_calls-IsKeyed db earlier empty)
  after_calls-IsKeyed db (removes port ∷ earlier) empty =
      rw (sql.rows-delete BlockedPort (after_calls db earlier).blocked (λ r. r.port == port)) (
        keep-IsKeyed (λ r. r.port) (λ r. not (r.port == port)) (table (after_calls db earlier))
          (after_calls-IsKeyed db earlier empty))
  after_calls-IsKeyed db (clears ∷ earlier) empty =
      rw
        (
          sql.rows-delete BlockedPort (after_calls db earlier).blocked (λ r. true),
          keep-none (table (after_calls db earlier)),
        )
        tt

  pub first-add_blocked_port :
      (db : Database sql F) (port : ℕ) (block_type reason : String) (now p : ℕ)
      → first
          (with_key (λ r. r.port) p)
          (table (add_blocked_port sql db port block_type reason now))
        ≡ (if port == p
            then some
                (record { port = port; block_type = block_type; blocked_at = now; reason = reason })
            else first (with_key (λ r. r.port) p) (table db))
  unfolding add_blocked_port
  first-add_blocked_port db port block_type reason now p =
      first-upsert sql (λ r. r.port) port
        (λ r. record r { block_type = block_type; blocked_at = now; reason = reason })
        (record { port = port; block_type = block_type; blocked_at = now; reason = reason })
        db.blocked p (λ r. refl) refl
      ∙ ap (λ row. if port == p then some row else first (with_key (λ r. r.port) p) (table db))
          (upserted_row port block_type reason now (table db))

  pub first-remove_blocked_port :
      (db : Database sql F) (port p : ℕ)
      → first (with_key (λ r. r.port) p) (table (remove_blocked_port sql db port))
        ≡ (if port == p then none else first (with_key (λ r. r.port) p) (table db))
  unfolding remove_blocked_port
  first-remove_blocked_port db port p =
      rw (sql.rows-delete BlockedPort db.blocked (λ r. r.port == port))
        (first-delete (λ r. r.port) port p (table db))

  first-after_calls :
      (db : Database sql F) (calls : List PortCall) (p : ℕ)
      → table db ≡ []
      → first (with_key (λ r. r.port) p) (table (after_calls db calls)) ≡ expected calls p
  unfolding clear_blocked_ports
  first-after_calls db [] p empty = rw empty refl
  first-after_calls db (adds port block_type reason now ∷ earlier) p empty =
      first-add_blocked_port (after_calls db earlier) port block_type reason now p
      ∙ rw (first-after_calls db earlier p empty) refl
  first-after_calls db (removes port ∷ earlier) p empty =
      first-remove_blocked_port (after_calls db earlier) port p
      ∙ rw (first-after_calls db earlier p empty) refl
  first-after_calls db (clears ∷ earlier) p empty =
      rw
        (
          sql.rows-delete BlockedPort (after_calls db earlier).blocked (λ r. true),
          keep-none (table (after_calls db earlier)),
        )
        refl

  -- After any calls on an empty table, the ports that are reported blocked are in order, none is
  -- reported twice, and a port is reported exactly if it was added after it was last removed or
  -- the table cleared, with the type, reason and time of its last addition.
  pub get_blocked_ports_correct :
      (db : Database sql F) (calls : List PortCall)
      → table db ≡ []
      → IsSorted (λ r. r.port) (get_blocked_ports sql (after_calls db calls))
        × ((p : ℕ)
            → (first (with_key (λ r. r.port) p) (get_blocked_ports sql (after_calls db calls))
                ≡ expected calls p)
              × (length
                    (keep (with_key (λ r. r.port) p) (get_blocked_ports sql (after_calls db calls)))
                  ≤ 1))
  unfolding get_blocked_ports
  get_blocked_ports_correct db calls empty =
      let keyed = after_calls-IsKeyed db calls empty in
      let rs = table (after_calls db calls) in
      (
        sql.order_by-IsSorted BlockedPort (λ r. r.port) rs,
        λ p. (
          first-order_by sql (λ r. r.port) (λ r. r.port) p rs keyed
              ∙ first-after_calls db calls p empty,
          rw (sql.order_by_count BlockedPort (λ r. r.port) (with_key (λ r. r.port) p) rs)
              (length-keep-key (λ r. r.port) p rs keyed),
        ),
      )
