-- ===== src/Middleware/Limit.antt =====
-- The rate limiter counts the requests of a client within the window before each request.
use port_sentinel.Base.Dict.{get, get-put}
use port_sentinel.Middleware.{RateLimiter, client_ip, in_window, requests, dispatch, new_limiter}
use port_sentinel.Base.{
  text_keys, if◌then◌else◌, ℕ, Option, String, keep, List, length, ◌∷◌, ◌≡◌, Bool, ◌≤◌, refl, [],
  All, arith, ◌==◌, ◌++◌, ◌&&◌, ap, or_else, ltb, ◌+◌, Bool-cases, inl, keep-append, ◌∙◌, sym, inr,
  length-append, leb, suc, true,
}

pub record Request : Type 0 where
  pub host : Option String
  pub now : ℕ

-- Requests are listed with the last one first.
abbrev pub IsChronological : List Request → Type 0
IsChronological [] = Unit
IsChronological (q ∷ earlier) = All (λ e. e.now ≤ q.now) earlier × IsChronological earlier

-- The state after the requests.
abbrev pub after : RateLimiter → List Request → RateLimiter
after r [] = r
after r (q ∷ earlier) = (dispatch (after r earlier) q.host q.now).0

-- Whether a request is passed on after the earlier ones.
abbrev pub passes : RateLimiter → List Request → Request → Bool
passes r earlier q = (dispatch (after r earlier) q.host q.now).1

abbrev pub times : String → List Request → List ℕ
times ip [] = []
times ip (q ∷ earlier) =
    if client_ip q.host == ip then times ip earlier ++ q.now ∷ [] else times ip earlier

-- The times of the requests that were passed on.
abbrev pub passed : RateLimiter → String → List Request → List ℕ
passed r ip [] = []
passed r ip (q ∷ earlier) =
    if client_ip q.host == ip && passes r earlier q
    then passed r ip earlier ++ q.now ∷ []
    else passed r ip earlier

-- How many of the times are in the window that ends now.
abbrev pub recent : RateLimiter → ℕ → List ℕ → ℕ
recent r now ts = length (keep (in_window r now) ts)

module _ (r : RateLimiter) (fresh : r.clients ≡ []) where
  after-settings :
      (earlier : List Request)
      → ((after r earlier).max_requests ≡ r.max_requests) × ((after r earlier).window ≡ r.window)
  unfolding dispatch
  after-settings [] = (refl, refl)
  after-settings (q ∷ earlier) = after-settings earlier

  -- A later test keeps no more than an earlier one.
  keep-keep :
      (last now : ℕ) (ts : List ℕ)
      → last ≤ now
      → keep (in_window r now) (keep (in_window r last) ts) ≡ keep (in_window r now) ts
  unfolding keep in_window
  keep-keep last now [] h = refl
  keep-keep last now (t ∷ ts) h = ground (arith, keep-keep last now ts h)

  in_window-after : (earlier : List Request) → in_window (after r earlier) ≡ in_window r
  unfolding in_window
  in_window-after earlier = ap (λ w now t. ltb now (t + w)) ((after-settings earlier).1)

  -- What is noted for a client matters only within the window.
  noted-times :
      (ip : String) (earlier : List Request) (now : ℕ)
      → IsChronological earlier
      → All (λ e. e.now ≤ now) earlier
      → keep (in_window r now) (or_else (get (after r earlier).clients ip) [])
        ≡ keep (in_window r now) (times ip earlier)
  unfolding dispatch requests
  noted-times ip [] now c h = rw fresh (unfold get in refl)
  noted-times ip (q ∷ earlier) now c h =
      let old = or_else (get (after r earlier).clients (client_ip q.host)) [] in
      let found =
        get-put (after r earlier).clients (client_ip q.host)
          (requests (after r earlier) (client_ip q.host) q.now) ip in
      elim (Bool-cases (client_ip q.host == ip)) [
        | inl e ↦
            let same : client_ip q.host ≡ ip = (text_keys.same_iff (client_ip q.host) ip).0 e in
            rw (found, e, in_window-after earlier)
              (keep-append (in_window r now) (keep (in_window r q.now) old) (q.now ∷ [])
                ∙ ap (λ ts. ts ++ keep (in_window r now) (q.now ∷ []))
                    (keep-keep q.now now old h.0 ∙ rw same (noted-times ip earlier now c.1 h.1))
                ∙ sym (keep-append (in_window r now) (times ip earlier) (q.now ∷ [])))
        | inr e ↦ rw (found, e) (noted-times ip earlier now c.1 h.1)
      ]

  passes_lem :
      (earlier : List Request) (q : Request)
      → IsChronological (q ∷ earlier)
      → passes r earlier q
        ≡ leb (suc (recent r q.now (times (client_ip q.host) earlier))) r.max_requests
  unfolding dispatch requests
  passes_lem earlier q c =
      let ip = client_ip q.host in
      let noted = noted-times ip earlier q.now c.1 c.0 in
      let size = length-append (keep (in_window r q.now) (times ip earlier)) (q.now ∷ []) in
      rw ((after-settings earlier).0, in_window-after earlier, noted) (ground (arith, size))

  recent-append :
      (now t : ℕ) (ts : List ℕ)
      → recent r now (ts ++ t ∷ []) ≡ recent r now ts + (if in_window r now t then 1 else 0)
  unfolding keep
  recent-append now t ts =
      ap length (keep-append (in_window r now) ts (t ∷ []))
      ∙ length-append (keep (in_window r now) ts) (keep (in_window r now) (t ∷ []))
      ∙ ap (λ n. recent r now ts + n) (ground arith)

  recent-passed :
      (ip : String) (now : ℕ) (earlier : List Request)
      → recent r now (passed r ip earlier) ≤ recent r now (times ip earlier)
  recent-passed ip now [] = omega arith
  recent-passed ip now (q ∷ earlier) =
      let shorter = recent-passed ip now earlier in
      let a = recent-append now q.now (passed r ip earlier) in
      let b = recent-append now q.now (times ip earlier) in
      elim (Bool-cases (client_ip q.host == ip)) [
        | inr e ↦ rw e shorter
        | inl e ↦ elim (Bool-cases (passes r earlier q)) [
          | inl p ↦ rw (e, p, a, b) (omega (arith, shorter))
          | inr p ↦ rw (e, p, b) (omega (arith, shorter))
        ]
      ]

-- A request, later than all before it, is passed on exactly if its client has, with it, made no
-- more than `max_requests` requests within the window, passed on or not.
pub passes_iff :
    (max_requests window_seconds : ℕ) (earlier : List Request) (q : Request)
    → IsChronological (q ∷ earlier)
    → passes (new_limiter max_requests window_seconds) earlier q
      ≡ leb
          (suc (
            recent
              (new_limiter max_requests window_seconds)
              q.now
              (times (client_ip q.host) earlier)))
          max_requests
unfolding new_limiter
passes_iff max_requests window_seconds earlier q c =
    passes_lem (new_limiter max_requests window_seconds) refl earlier q c

-- No client has more than `max_requests` requests passed on within a window that ends at one of
-- them.
pub passes-IsLimited :
    (max_requests window_seconds : ℕ) (earlier : List Request) (q : Request)
    → IsChronological (q ∷ earlier)
    → passes (new_limiter max_requests window_seconds) earlier q ≡ true
    → suc (
        recent
          (new_limiter max_requests window_seconds)
          q.now
          (passed (new_limiter max_requests window_seconds) (client_ip q.host) earlier))
      ≤ max_requests
unfolding new_limiter
passes-IsLimited max_requests window_seconds earlier q c h =
    let r = new_limiter max_requests window_seconds in
    let all = recent-passed r refl (client_ip q.host) q.now earlier in
    let few : leb (suc (recent r q.now (times (client_ip q.host) earlier))) max_requests ≡ true =
      sym (passes_lem r refl earlier q c) ∙ h in
    ground (arith, all, few)
