-- ===== src/Dispatcher/Latest.antt =====
-- What a pass leaves in the history and puts in the table it emits.
use port_sentinel.Sniffer.Memory.{Buf}
use port_sentinel.Sniffer.Entry.{Platform}
use mathlib.Core.Path.{subst}
use port_sentinel.Metrics.Accumulator.Table.{get_port_table_correct}
use port_sentinel.Base.Unique.{filter_some}
use mathlib.Core.Option
use port_sentinel.Metrics.Window.Valid.{IsValid, add-IsValid}
use port_sentinel.Domain.Events.{Event}
use port_sentinel.Bus.{Client, EventBus}
use port_sentinel.Domain.Metadata.{ThreatService}
use port_sentinel.Base.Dict.{put, Dict, find_by, get, get-put_self}
use port_sentinel.Metrics.Accumulator.{Row, make_row, process_port_data, get_port_table, is_active}
use port_sentinel.Base.Floats.{Floats}
use port_sentinel.Domain.Snapshot.{PortSnapshot}
use port_sentinel.Sniffer.Shm.{PortEntry, read_all_active_ports}
use port_sentinel.Base.{
  ℕ, List, length, last?, drop, ◌++◌, ◌∷◌, [], ◌≡◌, some, suc, arith, refl, String, ap, ◌<◌, Option,
  HasEq, ◌-◌, if◌then◌else◌, ◌==◌, drop-append, same_refl, ◌∙◌, Bool-cases, nat_keys, inl, inr,
  last?-append, or_else, sym, Option-cases, none,
}
use port_sentinel.Dispatcher.{
  assign, assign_last, assign_in_cache, process_entry, process_entries, port_data, Reading, Parts,
  run_pass, emitted,
}
use port_sentinel.Metrics.Window.{push, add, SlidingWindowCache}
use port_sentinel.Metrics.Window.History.{entries, entries-add}

put-put {ℓ} :
    {K : Type ℓ} {V : Type ℓ} ⦃e : HasEq K⦄ (d : Dict K V) (k : K) (v v' : V)
    → put (put d k v) k v' ≡ put d k v'
unfolding put
put-put [] k v v' = rw (same_refl k) refl
put-put ((j, w) ∷ d) k v v' = elim (Bool-cases (j == k)) [
  | inl y ↦ rw (y, y) refl
  | inr n ↦ rw (n, n, put-put d k v v') refl
]

module _ {F : Type 0} where
  assign_last-append :
      (e : PortEntry) (xs : List (PortSnapshot F)) (s : PortSnapshot F)
      → assign_last e (xs ++ s ∷ []) ≡ xs ++ assign e s ∷ []
  unfolding assign_last
  assign_last-append e [] s = refl
  assign_last-append e (x ∷ []) s = refl
  assign_last-append e (x ∷ y ∷ xs) s = ap (◌∷◌ x) (assign_last-append e (y ∷ xs) s)

  push-append :
      (m : ℕ) (xs : List (PortSnapshot F)) (s : PortSnapshot F)
      → 0 < m
      → push m xs s ≡ drop (suc (length xs) - m) xs ++ s ∷ []
  unfolding push
  push-append m xs s h = drop-append (suc (length xs) - m) xs (s ∷ []) (omega arith)

  -- Assigning to the snapshot that was added is adding the snapshot assigned to.
  assign_in_cache-add :
      (e : PortEntry) (w : SlidingWindowCache F) (s : PortSnapshot F)
      → 0 < w.max_entries
      → s.port ≡ e.port
      → assign_in_cache e (add w s) ≡ add w (assign e s)
  unfolding assign_in_cache add assign_last
  assign_in_cache-add e w s h p =
      let xs = or_else (get w.cache s.port) [] in
      let m = w.max_entries in
      let list : assign_last e (push m xs s) ≡ push m xs (assign e s) =
        ap (assign_last e) (push-append m xs s h)
        ∙ assign_last-append e (drop (suc (length xs) - m) xs) s
        ∙ sym (push-append m xs (assign e s) h) in
      rw (sym p, get-put_self w.cache s.port (push m xs s))
        (ap (λ d. record w { cache = d })
          (put-put w.cache s.port (push m xs s) (assign_last e (push m xs s))
            ∙ ap (put w.cache s.port) list))

  last-add :
      (w : SlidingWindowCache F) (s : PortSnapshot F) (p : ℕ)
      → 0 < w.max_entries
      → last? (entries (add w s) p) ≡ (if s.port == p then some s else last? (entries w p))
  last-add w s p h = ap last? (entries-add w s p) ∙ elim (Bool-cases (s.port == p)) [
    | inl y ↦
        rw (y, push-append w.max_entries (entries w p) s h)
          (last?-append (drop (suc (length (entries w p)) - w.max_entries) (entries w p)) s)
    | inr n ↦ rw n refl
  ]

abbrev Facts : Type 0
Facts = ℕ × ℕ × String × ℕ

-- What the table says of a port that was read: its process, risk, address and time.
abbrev pub row_facts : {F : Type 0} → Row F → Facts
row_facts r = (r.pid, r.risk_score, r.remote_ip, r.timestamp)

abbrev facts : {F : Type 0} → PortSnapshot F → Facts
facts s = (s.pid, s.risk_score, s.remote_ip, s.timestamp)

facts-assign :
    {F : Type 0} (now : ℕ) (e : PortEntry) (s : PortSnapshot F)
    → s.pid ≡ e.pid
    → s.timestamp ≡ now
    → Option.map facts (filter_some (is_active now) (some (assign e s)))
      ≡ some (e.pid, e.risk_score, e.remote_ip, now)
unfolding is_active
facts-assign now e s pid time = elim (Bool-cases (is_active now (assign e s))) [
  | inl y ↦ rw y (λ i. some (pid i, e.risk_score, e.remote_ip, time i))
  | inr n ↦ absurd (ground (arith, n, time))
]

-- The last entry read of a port, or else what was known.
abbrev pub as_read : ℕ → List PortEntry → ℕ → Option Facts → Option Facts
as_read now [] p old = old
as_read now (e ∷ rest) p old =
    as_read now rest p (if e.port == p then some (e.pid, e.risk_score, e.remote_ip, now) else old)

module _ {F T W Ty H : Type 0} ⦃fl : Floats F⦄ ⦃ts : ThreatService F T⦄ ⦃te : HasEq Ty⦄
    ⦃he : HasEq H⦄ (c : Client Ty H Event W) (bus : EventBus Ty H) (now : ℕ) where
  -- What the port table says of a port.
  abbrev pub port_row : Parts F T W → ℕ → Option Facts
  port_row parts p =
      Option.map row_facts
        (find_by (λ r. r.port) p (get_port_table parts.accumulator (some now) now))

  abbrev newest : Parts F T W → ℕ → Option Facts
  newest parts p =
      Option.map facts (filter_some (is_active now) (last? (entries parts.accumulator.cache p)))

  port_row-newest :
      (parts : Parts F T W) (p : ℕ)
      → IsValid parts.accumulator.cache
      → port_row parts p ≡ newest parts p
  unfolding make_row
  port_row-newest parts p v =
      ap (Option.map row_facts) ((get_port_table_correct parts.accumulator now v).2 p)
      ∙ elim (Option-cases
          (filter_some (is_active now) (last? (entries parts.accumulator.cache p)))) [
            | inl e ↦ rw e refl
            | inr (s, e) ↦ rw e refl
          ]

  cache-process_entry :
      (r : Reading) (e : PortEntry) (parts : Parts F T W)
      → IsValid parts.accumulator.cache
      → (s : PortSnapshot F) × ((process_entry c bus now r e parts).accumulator.cache
          ≡ add parts.accumulator.cache (assign e s))
        × (s.port ≡ e.port)
        × (s.pid ≡ e.pid)
        × (s.timestamp ≡ now)
  unfolding process_entry process_port_data
  cache-process_entry r e parts v =
      let (s, a) = process_port_data r.proc_name r.clock parts.accumulator (port_data e now) in
      (s, assign_in_cache-add e parts.accumulator.cache s v.positive refl, refl, refl, refl)

  newest-process_entry :
      (r : Reading) (e : PortEntry) (parts : Parts F T W) (p : ℕ)
      → IsValid parts.accumulator.cache
      → newest (process_entry c bus now r e parts) p
        ≡ (if e.port == p then some (e.pid, e.risk_score, e.remote_ip, now) else newest parts p)
  newest-process_entry r e parts p v =
      let (s, same, port, pid, time) = cache-process_entry r e parts v in
      let cache = parts.accumulator.cache in
      ap (λ w. Option.map facts (filter_some (is_active now) (last? (entries w p)))) same
      ∙ ap (λ o. Option.map facts (filter_some (is_active now) o))
          (last-add cache (assign e s) p v.positive)
      ∙ ap
          (λ q. Option.map facts (
            filter_some (is_active now)
              (if q == p then some (assign e s) else last? (entries cache p))))
          port
      ∙ elim (Bool-cases (e.port == p)) [
        | inl y ↦ rw y (facts-assign now e s pid time)
        | inr n ↦ rw n refl
      ]

  IsValid-process_entry :
      (r : Reading) (e : PortEntry) (parts : Parts F T W)
      → IsValid parts.accumulator.cache
      → IsValid (process_entry c bus now r e parts).accumulator.cache
  IsValid-process_entry r e parts v =
      let (s, same, port, pid, time) = cache-process_entry r e parts v in
      subst IsValid (sym same) (add-IsValid parts.accumulator.cache (assign e s) v)

  newest-process_entries :
      (readings : ℕ → Reading) (es : List PortEntry) (parts : Parts F T W) (p : ℕ)
      → IsValid parts.accumulator.cache
      → (newest (process_entries c bus now readings es parts) p ≡ as_read now es p (newest parts p))
        × IsValid (process_entries c bus now readings es parts).accumulator.cache
  unfolding process_entries
  newest-process_entries readings [] parts p v = (refl, v)
  newest-process_entries readings (e ∷ es) parts p v =
      let next = process_entry c bus now (readings 0) e parts in
      let (here, valid) =
        newest-process_entries (λ n. readings (suc n)) es next p
          (IsValid-process_entry (readings 0) e parts v) in
      (here ∙ ap (as_read now es p) (newest-process_entry (readings 0) e parts p v), valid)

  emitted_lem :
      (es : List PortEntry) (parts : Parts F T W)
      → emitted c bus now es parts
        ≡ (if length es == 0 then none else some (get_port_table parts.accumulator (some now) now))
  emitted_lem [] parts = refl
  emitted_lem (e ∷ es) parts = ground arith

  -- If the window is valid before a pass, it is after. If an active port was read, a table is
  -- emitted; what it says of a port is what the last entry read of the port says, with the time of
  -- the pass, or else what the table said before.
  pub run_pass_correct :
      (sys : Platform) (key : List ℕ) (buf : Buf) (readings : ℕ → Reading) (parts : Parts F T W)
      (p : ℕ)
      → IsValid parts.accumulator.cache
      → let entries = read_all_active_ports sys key buf in
        let (after, table) = run_pass c bus now sys key buf readings parts in
        (port_row after p ≡ as_read now entries p (port_row parts p))
        × (table ≡ (
            if length entries == 0
            then none
            else some (get_port_table after.accumulator (some now) now)))
        × IsValid after.accumulator.cache
  unfolding run_pass
  run_pass_correct sys key buf readings parts p v =
      let es = read_all_active_ports sys key buf in
      let after = process_entries c bus now readings es parts in
      let (left, valid) = newest-process_entries readings es parts p v in
      (
        port_row-newest after p valid
            ∙ left
            ∙ ap (as_read now es p) (sym (port_row-newest parts p v)),
        emitted_lem es after,
        valid,
      )
