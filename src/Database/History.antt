-- ===== src/Database/History.antt =====
-- `SQLiteDB`: traffic history. A pass of `insert_traffic` commits all its rows at once; `clock` is
-- read for each record.
use port_sentinel.Base.Floats.{Floats}
use port_sentinel.Base.Time.{seconds}
use port_sentinel.Database.Engine.{Engine}
use port_sentinel.Database.Tables.{Database, TrafficHistory}
use port_sentinel.Base.{
  ℕ, String, Option, List, nat_keys, ◌∷◌, length, Bool, keep, or_else, suc, ◌==◌, ltb, [], ◌+◌,
  ◌&&◌, ◌*◌, leb,
}

-- A dictionary with some of the keys that the method reads.
pub record TrafficRecord (F : Type 0) : Type 0 where
  pub timestamp : Option ℕ
  pub port : Option ℕ
  pub pid : Option ℕ
  pub app_name : Option String
  pub kb_s_in : Option F
  pub kb_s_out : Option F
  pub protocol : Option String
  pub direction : Option String
  pub risk_score : Option ℕ

module _ {F : Type 0} ⦃fl : Floats F⦄ where
  unfoldable pub make_traffic : TrafficRecord F → ℕ → ℕ → TrafficHistory F
  make_traffic r now id = record {
    id = id;
    timestamp = or_else r.timestamp now;
    port = or_else r.port 0;
    pid = or_else r.pid 0;
    app_name = or_else r.app_name "Unknown";
    kb_s_in = or_else r.kb_s_in fl.zero;
    kb_s_out = or_else r.kb_s_out fl.zero;
    protocol = or_else r.protocol "TCP";
    direction = or_else r.direction "both";
    risk_score = or_else r.risk_score 0;
  }

module _ {F : Type 0} where
  -- `TrafficHistory.port == port, TrafficHistory.timestamp >= cutoff`
  unfoldable pub in_history : ℕ → ℕ → ℕ → TrafficHistory F → Bool
  in_history port hours now r = r.port == port && leb now (r.timestamp + seconds (hours * 3600))

  -- `TrafficHistory.timestamp < cutoff`
  unfoldable pub is_old : ℕ → ℕ → TrafficHistory F → Bool
  is_old hours now r = ltb (r.timestamp + seconds (hours * 3600)) now

module _ (sql : Engine) {F : Type 0} ⦃fl : Floats F⦄ where
  unfoldable pub save_traffic :
      sql.Rows (TrafficHistory F) → List (TrafficRecord F) → (ℕ → ℕ) → sql.Rows (TrafficHistory F)
  save_traffic t [] clock = t
  save_traffic t (r ∷ rest) clock =
      save_traffic
        (sql.add (TrafficHistory F) t
          (make_traffic r (clock 0) (sql.next_id (TrafficHistory F) (λ row. row.id) t)))
        rest (λ n. clock (suc n))

  -- An empty list opens no session, which changes nothing either.
  unfoldable pub insert_traffic : Database sql F → List (TrafficRecord F) → (ℕ → ℕ) → Database sql F
  insert_traffic db records clock = record db { traffic = save_traffic db.traffic records clock }

  unfoldable pub get_traffic_history : Database sql F → ℕ → ℕ → ℕ → List (TrafficHistory F)
  get_traffic_history db port hours now =
      sql.order_by (TrafficHistory F) (λ r. r.timestamp)
        (keep (in_history port hours now) (sql.rows (TrafficHistory F) db.traffic))

  unfoldable pub prune_old_traffic : Database sql F → ℕ → ℕ → Database sql F × ℕ
  prune_old_traffic db max_age_hours now = (
    record db { traffic = sql.delete (TrafficHistory F) db.traffic (is_old max_age_hours now) },
    length (keep (is_old max_age_hours now) (sql.rows (TrafficHistory F) db.traffic)),
  )
