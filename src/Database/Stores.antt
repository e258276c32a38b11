-- ===== src/Database/Stores.antt =====
-- `SQLiteDB`: the tables with one row for each key: processes, configuration, blocked ports,
-- preferences and layouts. Each method that writes holds the write lock and commits once.
use port_sentinel.Base.Dict.{Dict, put}
use mathlib.Core.Option
use port_sentinel.Database.Engine.{Engine, first}
use port_sentinel.Database.Tables.{
  Database, ProcessMap, ConfigCache, BlockedPort, DashboardLayout, UserPreference,
}
use port_sentinel.Base.{
  ℕ, String, Option, List, nat_keys, text_keys, Bool, true, ◌==◌, [], ◌∷◌, length, some, none,
}

module _ (sql : Engine) where
  -- The row found is changed, or else a new one is added.
  unfoldable pub upsert : (R : Type 0) → (R → Bool) → (R → R) → R → sql.Rows R → sql.Rows R
  upsert R found change new t = elim (first found (sql.rows R t)) [
    | none ↦ sql.add R t new
    | some row ↦ sql.edit R t found change
  ]

-- `{p.key: p.value for p in prefs}`
unfoldable pub to_preferences : List UserPreference → Dict String String → Dict String String
to_preferences [] d = d
to_preferences (p ∷ rest) d = to_preferences rest (put d p.key p.value)

-- `conf.value if conf else default`
abbrev pub value_or : Option String → Option ConfigCache → Option String
value_or default none = default
value_or default (some r) = some r.value

module _ (sql : Engine) {F : Type 0} where
  unfoldable pub upsert_process : Database sql F → ℕ → String → ℕ → Database sql F
  upsert_process db pid app_name now = record db {
    processes =
        upsert sql ProcessMap (λ r. r.pid == pid)
          (λ r. record r { app_name = app_name; last_seen = now })
          (record { pid = pid; app_name = app_name; first_seen = now; last_seen = now })
          db.processes;
  }

  unfoldable pub get_process_name : Database sql F → ℕ → Option String
  get_process_name db pid =
      Option.map (λ r. r.app_name) (first (λ r. r.pid == pid) (sql.rows ProcessMap db.processes))

  unfoldable pub set_config : Database sql F → String → String → ℕ → Database sql F
  set_config db key value now = record db {
    configs =
        upsert sql ConfigCache (λ r. r.key == key)
          (λ r. record r { value = value; updated_at = now })
          (record { key = key; value = value; updated_at = now }) db.configs;
  }

  unfoldable pub get_config : Database sql F → String → Option String → Option String
  get_config db key default =
      value_or default (first (λ r. r.key == key) (sql.rows ConfigCache db.configs))

  unfoldable pub add_blocked_port : Database sql F → ℕ → String → String → ℕ → Database sql F
  add_blocked_port db port block_type reason now = record db {
    blocked =
        upsert sql BlockedPort (λ r. r.port == port)
          (λ r. record r { block_type = block_type; blocked_at = now; reason = reason })
          (record { port = port; block_type = block_type; blocked_at = now; reason = reason })
          db.blocked;
  }

  unfoldable pub remove_blocked_port : Database sql F → ℕ → Database sql F
  remove_blocked_port db port = record db {
    blocked = sql.delete BlockedPort db.blocked (λ r. r.port == port);
  }

  unfoldable pub get_blocked_ports : Database sql F → List BlockedPort
  get_blocked_ports db = sql.order_by BlockedPort (λ r. r.port) (sql.rows BlockedPort db.blocked)

  unfoldable pub clear_blocked_ports : Database sql F → Database sql F × ℕ
  clear_blocked_ports db = (
    record db { blocked = sql.delete BlockedPort db.blocked (λ r. true) },
    length (sql.rows BlockedPort db.blocked),
  )

  unfoldable pub get_dashboard_layout : Database sql F → String → Option String
  get_dashboard_layout db name =
      Option.map (λ r. r.layout_json)
        (first (λ r. r.name == name) (sql.rows DashboardLayout db.layouts))

  unfoldable pub set_user_preference : Database sql F → String → String → Database sql F
  set_user_preference db key value = record db {
    preferences =
        upsert sql UserPreference (λ r. r.key == key) (λ r. record r { value = value })
          (record {
            id = sql.next_id UserPreference (λ r. r.id) db.preferences;
            key = key;
            value = value;
          })
          db.preferences;
  }

  unfoldable pub get_user_preferences : Database sql F → Dict String String
  get_user_preferences db = to_preferences (sql.rows UserPreference db.preferences) []
