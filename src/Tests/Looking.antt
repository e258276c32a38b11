-- ===== src/Tests/Looking.antt =====
-- The threat service at concrete inputs.
use port_sentinel.Base.Dict.{get, put}
use port_sentinel.Base.Floats.{whole}
use port_sentinel.Base.Time.{seconds}
use port_sentinel.Base.Words.{codes}
use port_sentinel.Base.{ℕ, true, false, List, [], ◌∷◌, some, is_some, ◌≡◌, refl, ◌⊎◌, text_keys}
use port_sentinel.Threats.Freshness.{after_calls, memory, IsFresh, get_ip_metadata-IsFresh}
use port_sentinel.Threats.Holding.{Call, asked, fetched}
use port_sentinel.Threats.{
  Fetched, is_local, get_ip_metadata, resolving, fetch_background, start_fetch, fetched_metadata,
}

abbrev found : Fetched ℕ
found = record { org = "Example"; city = "Berlin"; country = "DE"; latitude = 52; longitude = 13 }

-- The address is asked for, fetched a second later, and asked for again after ten seconds.
abbrev calls : List (Call ℕ)
calls = fetched "8.8.8.8" (some found) (seconds 101) ∷ asked "8.8.8.8" (λ n. seconds 100) ∷ []

remote : is_local "8.8.8.8" ≡ false
unfolding is_local codes
remote = refl

get_ip_metadata-IsFresh_example :
    let l =
      get_ip_metadata (λ ip. true) (after_calls (λ ip. true) calls) "8.8.8.8" (λ n. seconds 110) in
    ((l.answer ≡ resolving) × (is_some l.fetches ≡ true))
    ⊎ IsFresh (λ ip. true) (memory (λ ip. true) calls) "8.8.8.8" (seconds 110) l
get_ip_metadata-IsFresh_example =
    get_ip_metadata-IsFresh (λ ip. true) calls "8.8.8.8" (λ n. seconds 110) remote refl

-- The second answer is the one that was fetched.
second_answer :
    (get_ip_metadata
      (λ ip. true)
      (after_calls (λ ip. true) calls)
      "8.8.8.8"
      (λ n. seconds 110)).answer.country
    ≡ "DE"
unfolding get_ip_metadata fetch_background start_fetch fetched_metadata is_local get put codes
second_answer = refl
