-- ===== src/Container/Flush.antt =====
-- What the job that flushes the traffic stores.
use port_sentinel.Base.{
  String, ℕ, suc, List, [], ◌∷◌, ◌++◌, ◌≡◌, ◌∙◌, ap, sym, none, map, append-nil, append_assoc,
}
use port_sentinel.Base.Floats.{Floats}
use port_sentinel.Container.{Services, to_record, insert_rows, flush_traffic}
use port_sentinel.Database.Engine.{Engine}
use port_sentinel.Database.History.{make_traffic, save_traffic, insert_traffic}
use port_sentinel.Database.Tables.{Database, TrafficHistory}
use port_sentinel.Metrics.Accumulator.{Row, get_port_table}
use port_sentinel.Queries.Geo.Loop.{map-append}

-- A row of the table without its id, and what a row of the port table gives for it.
abbrev pub Content : Type 0 → Type 0
Content F = ℕ × ℕ × ℕ × String × F × F × String × String × ℕ

abbrev pub stored_content : {F : Type 0} → TrafficHistory F → Content F
stored_content r = (
  r.timestamp, r.port, r.pid, r.app_name, r.kb_s_in, r.kb_s_out, r.protocol, r.direction,
  r.risk_score,
)

abbrev pub row_content : {F : Type 0} → Row F → Content F
row_content r = (
  r.timestamp, r.port, r.pid, r.app_name, r.kb_s_in, r.kb_s_out, r.protocol, r.direction,
  r.risk_score,
)

module _ (sql : Engine) {F : Type 0} ⦃fl : Floats F⦄ where
  abbrev pub stored : sql.Rows (TrafficHistory F) → List (Content F)
  stored t = map stored_content (sql.rows (TrafficHistory F) t)

  save_traffic-to_record :
      (rows : List (Row F)) (t : sql.Rows (TrafficHistory F)) (clock : ℕ → ℕ)
      → stored (save_traffic sql t (map to_record rows) clock) ≡ stored t ++ map row_content rows
  unfolding save_traffic to_record make_traffic
  save_traffic-to_record [] t clock = sym (append-nil (stored t))
  save_traffic-to_record (r ∷ rows) t clock =
      let made =
        make_traffic (to_record r) (clock 0) (sql.next_id (TrafficHistory F) (λ row. row.id) t) in
      save_traffic-to_record rows (sql.add (TrafficHistory F) t made) (λ n. clock (suc n))
      ∙ ap (λ l. l ++ map row_content rows)
          (ap (map stored_content) (sql.rows-add (TrafficHistory F) t made)
            ∙ map-append stored_content (sql.rows (TrafficHistory F) t) (made ∷ []))
      ∙ append_assoc (stored t) (row_content r ∷ []) (map row_content rows)

  insert_rows-stored :
      (rows : List (Row F)) (db : Database sql F) (clock : ℕ → ℕ)
      → stored (insert_rows sql db rows clock).traffic ≡ stored db.traffic ++ map row_content rows
  unfolding insert_traffic
  insert_rows-stored [] db clock = sym (append-nil (stored db.traffic))
  insert_rows-stored (r ∷ rows) db clock = save_traffic-to_record (r ∷ rows) db.traffic clock

  -- The job that flushes the traffic adds the rows of the port table of its time, in their order
  -- and with all that the table of the history has room for, behind the rows that are stored; if
  -- the port table is empty it changes nothing.
  pub flush_traffic_correct :
      {T : Type 0} (s : Services sql F T) (clock : ℕ → ℕ)
      → stored (flush_traffic sql s clock).database.traffic
        ≡ stored s.database.traffic
          ++ map row_content (get_port_table s.traffic_accumulator none (clock 0))
  unfolding flush_traffic
  flush_traffic_correct s clock =
      insert_rows-stored (get_port_table s.traffic_accumulator none (clock 0)) s.database
        (λ n. clock (suc n))
