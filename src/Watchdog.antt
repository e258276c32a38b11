-- ===== src/Watchdog.antt =====
-- backend/core/watchdog.py: when the backend is started again, and in what environment.
pub mod Restarts
use port_sentinel.Base.Text.{show}
use port_sentinel.Base.Dict.{Dict, get, put}
use port_sentinel.Base.Words.{codes, read_number}
use port_sentinel.Base.{
  or_else, none, some, text_keys, if◌then◌else◌, ℕ, zero, suc, String, Bool, List, [], ◌∷◌, leb,
  min, ◌^◌, ◌+◌, Option,
}

abbrev pub safe_keys : List String
safe_keys =
    "PATH" ∷ "PYTHONPATH" ∷ "HOST" ∷ "PORT" ∷ "DATABASE_URL" ∷ "VIGILANT_JWT_SECRET"
    ∷ "VIGILANT_CORS_ORIGINS" ∷ "INFLUXDB_URL" ∷ "INFLUXDB_TOKEN" ∷ "INFLUXDB_ORG"
    ∷ "INFLUXDB_BUCKET" ∷ "POSTGRES_USER" ∷ "POSTGRES_PASSWORD" ∷ "POSTGRES_DB" ∷ []

abbrev pub put_found : Dict String String → String → Option String → Dict String String
put_found found k none = found
put_found found k (some v) = put found k v

-- `{k: env[k] for k in keys if k in env}`
unfoldable pub pick : Dict String String → List String → Dict String String
pick env [] = []
pick env (k ∷ keys) = put_found (pick env keys) k (get env k)

unfoldable pub restart_env : Dict String String → ℕ → Dict String String
restart_env env new_count = put (pick env safe_keys) "SENTINEL_RESTARTS" (show new_count)

-- What one pass of the monitoring loop comes to.
pub data Action : Type 0 where
  watch give_up : Action
  -- Sleep for the back-off in seconds, then start a backend in an environment.
  restart : (backoff : ℕ) (env : Dict String String) → Action

-- `int(os.environ.get("SENTINEL_RESTARTS", "0"))`, and nothing where `int` raises. The texts that
-- are read are those of digits, as the program writes them: `int` also takes signs, spaces and
-- underscores, which are not modelled.
unfoldable pub read_restarts : Dict String String → Option ℕ
read_restarts env = read_number (codes (or_else (get env "SENTINEL_RESTARTS") "0"))

-- An exception is logged, and the loop goes on.
abbrev pub lost : Dict String String → Option ℕ → Action
lost env none = watch
lost env (some restarts) =
    if leb 5 restarts
    then give_up
    else restart (min 60 (2 ^ restarts)) (restart_env env (restarts + 1))

unfoldable pub monitor : Bool → Dict String String → Action
monitor main_exists env = if main_exists then watch else lost env (read_restarts env)
