-- ===== src/Tests/Requests.antt =====
-- The rate limiter at concrete inputs.
use port_sentinel.Base.Dict.{get, put}
use port_sentinel.Base.Time.{seconds}
use port_sentinel.Middleware.{new_limiter, dispatch, requests, client_ip, in_window}
use port_sentinel.Middleware.Limit.{
  Request, passes, recent, times, passed, passes_iff, passes-IsLimited,
}
use port_sentinel.Base.{ℕ, ◌≡◌, leb, some, false, suc, List, ◌∷◌, refl, none, [], arith, ◌≤◌, keep}

abbrev at : ℕ → Request
at s = record { host = some "10.0.0.7"; now = seconds s }

abbrev before : List Request
before = at 50 ∷ at 20 ∷ (record { host = none; now = seconds 5 }) ∷ at 3 ∷ []

-- Two requests a minute: the request after 61 seconds still sees two others.
passes_iff_example :
    passes (new_limiter 2 60) before (at 61)
    ≡ leb (suc (recent (new_limiter 2 60) (seconds 61) (times "10.0.0.7" before))) 2
unfolding client_ip
passes_iff_example = passes_iff 2 60 before (at 61) (
  (omega arith, (omega arith, (omega arith, (omega arith, tt)))),
  (
    (omega arith, (omega arith, (omega arith, tt))),
    ((omega arith, (omega arith, tt)), ((omega arith, tt), (tt, tt))),
  ),
)

turned_away : passes (new_limiter 2 60) before (at 61) ≡ false
unfolding new_limiter dispatch requests keep get put client_ip in_window
turned_away = refl

passes-IsLimited_example :
    suc (recent (new_limiter 2 60) (seconds 61) (passed (new_limiter 2 60) "10.0.0.7" (at 3 ∷ [])))
    ≤ 2
unfolding new_limiter dispatch requests keep get put client_ip in_window
passes-IsLimited_example =
    passes-IsLimited 2 60 (at 3 ∷ []) (at 61) ((omega arith, tt), (tt, tt)) refl
