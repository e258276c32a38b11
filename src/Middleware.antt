-- ===== src/Middleware.antt =====
-- `RateLimitMiddleware` of backend/presentation/middleware/security.py.
pub mod Limit
use port_sentinel.Base.Time.{seconds}
use port_sentinel.Base.Dict.{Dict, put, get}
use port_sentinel.Base.{
  text_keys, if◌then◌else◌, ℕ, Option, String, or_else, Bool, List, [], ltb, keep, not, ◌+◌, length,
  ◌++◌, ◌∷◌,
}

-- Times and the window are in ticks; `clients` is `_clients`.
pub record RateLimiter : Type 0 where
  pub max_requests : ℕ
  pub window : ℕ
  pub clients : Dict String (List ℕ)

unfoldable pub new_limiter : ℕ → ℕ → RateLimiter
new_limiter max_requests window_seconds = record {
  max_requests = max_requests;
  window = seconds window_seconds;
  clients = [];
}

-- `request.client` may be missing.
unfoldable pub client_ip : Option String → String
client_ip host = or_else host "unknown"

-- `t > now - self.window_seconds`
unfoldable pub in_window : RateLimiter → ℕ → ℕ → Bool
in_window r now t = ltb now (t + r.window)

-- The times noted for a client, this request's last.
unfoldable pub requests : RateLimiter → String → ℕ → List ℕ
requests r ip now = keep (in_window r now) (or_else (get r.clients ip) []) ++ now ∷ []

-- The new state, and whether the request is passed on; if not, the answer is 429.
unfoldable pub dispatch : RateLimiter → Option String → ℕ → RateLimiter × Bool
dispatch r host now =
    let ip = client_ip host in
    let noted = requests r ip now in
    (record r { clients = put r.clients ip noted }, not (ltb r.max_requests (length noted)))
