-- ===== src/Database/Configuration.antt =====
-- Settings, preferences and process names are read back as they were last written.
use port_sentinel.Base.Dict.{get, Dict, put, get-put}
use mathlib.Core.Option
use mathlib.Core.Path.{subst}
use port_sentinel.Database.Engine.{Engine, first}
use port_sentinel.Database.Tables.{Database, ConfigCache, UserPreference, ProcessMap}
use port_sentinel.Database.Stores.{
  upsert, set_config, get_config, set_user_preference, get_user_preferences, to_preferences,
  upsert_process, get_process_name,
}
use port_sentinel.Database.Keyed.{IsKeyed, with_key, first_of_absent}
use port_sentinel.Database.Upserts.{upserted, first-upsert, upsert-IsKeyed}
use port_sentinel.Base.{
  ℕ, List, String, Option, text_keys, nat_keys, ◌≡◌, some, if◌then◌else◌, none, ◌==◌, refl,
  Bool-cases, inl, ap, inr, [], ◌∷◌, All, ◌∙◌, sym, ◌≢◌,
}

value_of_upserted :
    (value : String) (now : ℕ) (new : ConfigCache) (o : Option ConfigCache)
    → new.value ≡ value
    → (upserted (λ r. record r { value = value; updated_at = now }) new o).value ≡ value
value_of_upserted value now new none h = h
value_of_upserted value now new (some r) h = refl

name_of_upserted :
    (app_name : String) (now : ℕ) (new : ProcessMap) (o : Option ProcessMap)
    → new.app_name ≡ app_name
    → (upserted (λ r. record r { app_name = app_name; last_seen = now }) new o).app_name ≡ app_name
name_of_upserted app_name now new none h = h
name_of_upserted app_name now new (some r) h = refl

value_of_preference :
    (value : String) (new : UserPreference) (o : Option UserPreference)
    → new.value ≡ value
    → (upserted (λ r. record r { value = value }) new o).value ≡ value
value_of_preference value new none h = h
value_of_preference value new (some r) h = refl

abbrev or_value : Option String → Option String → Option String
or_value none old = old
or_value (some v) old = some v

-- Preferences as a map.
get-to_preferences :
    (rs : List UserPreference) (d : Dict String String) (k : String)
    → IsKeyed (λ r. r.key) rs
    → get (to_preferences rs d) k
      ≡ or_value (Option.map (λ r. r.value) (first (with_key (λ r. r.key) k) rs)) (get d k)
unfolding to_preferences
get-to_preferences [] d k h = refl
get-to_preferences (r ∷ rest) d k h = elim (Bool-cases (r.key == k)) [
  | inl y ↦
      let same : r.key ≡ k = (text_keys.same_iff r.key k).0 y in
      let gone =
        first_of_absent (λ r. r.key) k rest (subst (λ j. All (λ s. s.key ≢ j) rest) same h.0) in
      get-to_preferences rest (put d r.key r.value) k h.1
      ∙ rw (gone, y) (get-put d r.key r.value k ∙ rw y refl)
  | inr n ↦
      get-to_preferences rest (put d r.key r.value) k h.1
      ∙ rw n (
          ap (or_value (Option.map (λ r. r.value) (first (with_key (λ r. r.key) k) rest)))
            (get-put d r.key r.value k ∙ rw n refl))
]

module _ (sql : Engine) {F : Type 0} where
  -- A setting is read back as it was last written, and no other setting changes.
  pub get_config-set_config :
      (db : Database sql F) (key value : String) (now : ℕ) (k : String) (default : Option String)
      → get_config sql (set_config sql db key value now) k default
        ≡ (if key == k then some value else get_config sql db k default)
  unfolding get_config set_config
  get_config-set_config db key value now k default =
      let found =
        first-upsert sql (λ r. r.key) key (λ r. record r { value = value; updated_at = now })
          (record { key = key; value = value; updated_at = now }) db.configs k (λ r. refl) refl in
      elim (Bool-cases (key == k)) [
        | inl y ↦
            rw (found, y)
              (ap some (
                value_of_upserted value now (record { key = key; value = value; updated_at = now })
                  (first (with_key (λ r. r.key) key) (sql.rows ConfigCache db.configs)) refl))
        | inr n ↦ rw (found, n) refl
      ]

  -- The name of a process is read back as it was last written, and no other name changes.
  pub get_process_name-upsert_process :
      (db : Database sql F) (pid : ℕ) (app_name : String) (now p : ℕ)
      → get_process_name sql (upsert_process sql db pid app_name now) p
        ≡ (if pid == p then some app_name else get_process_name sql db p)
  unfolding get_process_name upsert_process
  get_process_name-upsert_process db pid app_name now p =
      let found =
        first-upsert sql (λ r. r.pid) pid (λ r. record r { app_name = app_name; last_seen = now })
          (record { pid = pid; app_name = app_name; first_seen = now; last_seen = now })
          db.processes p (λ r. refl) refl in
      elim (Bool-cases (pid == p)) [
        | inl y ↦
            rw (found, y)
              (ap some (
                name_of_upserted app_name now
                  (record { pid = pid; app_name = app_name; first_seen = now; last_seen = now })
                  (first (with_key (λ r. r.pid) pid) (sql.rows ProcessMap db.processes)) refl))
        | inr n ↦ rw (found, n) refl
      ]

  abbrev pub prefs : Database sql F → List UserPreference
  prefs db = sql.rows UserPreference db.preferences

  -- If no preference is stored twice, a preference is read back as it was last written, no other
  -- preference changes, and again none is stored twice.
  pub get_user_preferences-set :
      (db : Database sql F) (key value k : String)
      → IsKeyed (λ r. r.key) (prefs db)
      → (get (get_user_preferences sql (set_user_preference sql db key value)) k
          ≡ (if key == k then some value else get (get_user_preferences sql db) k))
        × IsKeyed (λ r. r.key) (prefs (set_user_preference sql db key value))
  unfolding get_user_preferences set_user_preference
  get_user_preferences-set db key value k h =
      let new : UserPreference = record {
        id = sql.next_id UserPreference (λ r. r.id) db.preferences;
        key = key;
        value = value;
      } in
      let change : UserPreference → UserPreference = λ r. record r { value = value } in
      let after = upsert sql UserPreference (with_key (λ r. r.key) key) change new db.preferences in
      let keyed =
        upsert-IsKeyed sql (λ r. r.key) key change new db.preferences (λ r. refl) refl h in
      let found = first-upsert sql (λ r. r.key) key change new db.preferences k (λ r. refl) refl in
      (
        get-to_preferences (sql.rows UserPreference after) [] k keyed
            ∙ ap (λ o. or_value (Option.map (λ r. r.value) o) (get [] k)) found
            ∙ elim (Bool-cases (key == k)) [
              | inl y ↦ rw y (
                  ap some (
                    value_of_preference value new (first (with_key (λ r. r.key) key) (prefs db))
                      refl))
              | inr n ↦ rw n (sym (get-to_preferences (prefs db) [] k h))
            ],
        keyed,
      )
