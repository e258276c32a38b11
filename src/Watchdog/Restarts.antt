-- ===== src/Watchdog/Restarts.antt =====
-- When the backend is started again, and what it inherits.
use port_sentinel.Base.Text.{show}
use port_sentinel.Base.Dict.{Dict, get, get-put}
use port_sentinel.Base.Words.{codes, read_number, read_from, is_digit}
use port_sentinel.Base.Text.Digits.{first_digit-show, read_digits, read_digits-show}
use port_sentinel.Watchdog.{read_restarts, give_up, restart, monitor, safe_keys, pick, restart_env}
use port_sentinel.Base.{
  leb, min, ◌^◌, ◌*◌, ◌-◌, ◌+◌, ◌≤◌, ◌<◌, ◌⊎◌, append-nil, text_keys, if◌then◌else◌, ℕ, zero, suc,
  String, List, [], ◌∷◌, false, contains, ◌≡◌, refl, ◌==◌, none, Option-cases, some, inl,
  Bool-cases, ap, ◌∙◌, sym, arith, inr,
}

get-pick :
    (env : Dict String String) (keys : List String) (k : String)
    → get (pick env keys) k ≡ (if contains keys k then get env k else none)
unfolding pick contains
get-pick env [] k = unfold get in refl
get-pick env (j ∷ keys) k = elim (Option-cases (get env j)) [
  | inl e ↦ elim (Bool-cases (j == k)) [
    | inl same ↦
        let gone : get env k ≡ none = ap (get env) (sym ((text_keys.same_iff j k).0 same)) ∙ e in
        rw (e, same) (get-pick env keys k ∙ ground (arith, gone))
    | inr apart ↦ rw (e, apart) (get-pick env keys k)
  ]
  | inr (v, e) ↦ elim (Bool-cases (j == k)) [
    | inl same ↦
        let there : get env k ≡ some v = ap (get env) (sym ((text_keys.same_iff j k).0 same)) ∙ e in
        rw (e, same, there) (get-put (pick env keys) j v k ∙ rw same refl)
    | inr apart ↦ rw (e, apart) (get-put (pick env keys) j v k ∙ rw apart (get-pick env keys k))
  ]
]

-- The new environment has the count and, of the old environment, exactly the listed variables.
pub get-restart_env :
    (env : Dict String String) (new_count : ℕ) (k : String)
    → get (restart_env env new_count) k ≡ (
        if "SENTINEL_RESTARTS" == k
        then some (show new_count)
        else if contains safe_keys k
        then get env k
        else none)
unfolding restart_env
get-restart_env env new_count k =
    get-put (pick env safe_keys) "SENTINEL_RESTARTS" (show new_count) k
    ∙ ap (λ o. if "SENTINEL_RESTARTS" == k then some (show new_count) else o)
        (get-pick env safe_keys k)

read_from-digits : (n m : ℕ) (s : List ℕ) → read_digits n s ≡ (m, []) → read_from n s ≡ some m
unfolding read_digits
read_from-digits n m [] h = ap (λ r. some r.0) h
read_from-digits n m (c ∷ s) h = elim (Bool-cases (is_digit c)) [
  | inl y ↦ rw y (read_from-digits (n * 10 + (c - 48)) m s (rw y at h))
  | inr x ↦ let bad : c ∷ s ≡ [] = ap (λ r. r.1) (rw x at h) in cc
]

-- `int(str(n))`
read_number-show : (n : ℕ) → read_number (codes (show n)) ≡ some n
unfolding read_number read_digits
read_number-show n =
    let (d, q, starts, small) = first_digit-show n in
    let reads : read_digits 0 (codes (show n)) ≡ (n, []) =
      ap (read_digits 0) (sym (append-nil (codes (show n)))) ∙ read_digits-show n [] in
    rw starts (read_from-digits 0 n ((48 + d) ∷ q) (rw starts at reads))

read_restarts-restart_env :
    (env : Dict String String) (new_count : ℕ)
    → read_restarts (restart_env env new_count) ≡ some new_count
unfolding read_restarts
read_restarts-restart_env env new_count =
    rw (get-restart_env env new_count "SENTINEL_RESTARTS") (read_number-show new_count)

backoff_small : (count : ℕ) → count < 5 → min 60 (2 ^ count) ≡ 2 ^ count
backoff_small zero h = refl
backoff_small (suc zero) h = refl
backoff_small (suc (suc zero)) h = refl
backoff_small (suc (suc (suc zero))) h = refl
backoff_small (suc (suc (suc (suc zero)))) h = refl
backoff_small (suc (suc (suc (suc (suc n))))) h = absurd (omega arith)

-- If the backend is lost and the environment of the watchdog gives a count of restarts in digits, or
-- none, which counts as 0: from five on the watchdog gives up, and below five it starts a backend after
-- 2 ^ count seconds, in an environment from which a watchdog reads the count plus one, and which of
-- the other variables of the old one has the listed ones and no more.
pub monitor_correct :
    (env : Dict String String) (count : ℕ)
    → read_restarts env ≡ some count
    → ((5 ≤ count) × (monitor false env ≡ give_up))
      ⊎ ((count < 5)
          × ((next : Dict String String) × (monitor false env ≡ restart (2 ^ count) next)
              × (read_restarts next ≡ some (count + 1))
              × ((k : String)
                  → get next k ≡ (
                      if "SENTINEL_RESTARTS" == k
                      then some (show (count + 1))
                      else if contains safe_keys k
                      then get env k
                      else none))))
unfolding monitor
monitor_correct env count h = elim (Bool-cases (leb 5 count)) [
  | inl y ↦ inl (ground arith, rw (h, y) refl)
  | inr n ↦
      let small : count < 5 = ground arith in
      inr (
        small,
        (
          restart_env env (count + 1),
          rw (h, n) (ap (λ b. restart b (restart_env env (count + 1))) (backoff_small count small)),
          read_restarts-restart_env env (count + 1),
          get-restart_env env (count + 1),
        ),
      )
]
