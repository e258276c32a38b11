-- ===== src/Metrics/Accumulator/Names.antt =====
-- The cache of process names.
use port_sentinel.Base.Dict.{get, put, get-put_self, get-keep}
use port_sentinel.Base.Time.{seconds}
use port_sentinel.Base.{
  ℕ, ◌+◌, ◌≤◌, ◌<◌, ◌≡◌, refl, String, Option, none, some, ltb, nat_keys, length, All,
  All-keep_test, All-map, arith, inl, inr, ◌⊎◌, Bool-cases, keep,
}
use port_sentinel.Metrics.Accumulator.{
  NameCache, fresh_name, store_name, resolve_app_name, pid_cache_ttl, pid_cache_max,
}

-- The name is stored, with a time less than a minute ago.
abbrev pub IsCurrent : NameCache → ℕ → String → ℕ → Type 0
IsCurrent cache pid name now =
    (at : ℕ) × (get cache pid ≡ some (name, at)) × (now < at + pid_cache_ttl)

-- Where a returned name comes from.
abbrev pub Source : (ℕ → Option String) → NameCache → ℕ → ℕ → String → Type 0
Source proc_name cache pid now name =
    IsCurrent cache pid name now ⊎ (name ≡ fresh_name proc_name pid)

get-store_name :
    (cache : NameCache) (pid : ℕ) (name : String) (now : ℕ)
    → get (store_name cache pid name now) pid ≡ some (name, now)
unfolding store_name
get-store_name cache pid name now =
    let stored = put cache pid (name, now) in
    let found : get stored pid ≡ some (name, now) = get-put_self cache pid (name, now) in
    elim (Bool-cases (ltb pid_cache_max (length stored))) [
      | inl e ↦ rw e (
          get-keep (λ x. ltb now (x.1.1 + seconds 300)) stored pid (name, now) found (ground arith))
      | inr e ↦ rw e found
    ]

-- The name returned is a cached one of less than a minute ago, or what the operating system says
-- now; afterwards the cache holds it, with a time less than a minute ago.
pub resolve_app_name-IsCurrent :
    (proc_name : ℕ → Option String) (cache : NameCache) (pid now : ℕ)
    → Source proc_name cache pid now (resolve_app_name proc_name cache pid now).0
      × IsCurrent
          (resolve_app_name proc_name cache pid now).1
          pid
          (resolve_app_name proc_name cache pid now).0
          now
unfolding resolve_app_name
resolve_app_name-IsCurrent proc_name cache pid now = of_cached (get cache pid) refl
  where
    of_cached :
        (o : Option (String × ℕ))
        → get cache pid ≡ o
        → Source proc_name cache pid now (resolve_app_name proc_name cache pid now).0
          × IsCurrent
              (resolve_app_name proc_name cache pid now).1
              pid
              (resolve_app_name proc_name cache pid now).0
              now
    of_cached none e =
        rw (e, resolve_app_name)
          (inr refl, (now, get-store_name cache pid (fresh_name proc_name pid) now, omega arith))
    of_cached (some (name, at)) e = elim (Bool-cases (ltb now (at + pid_cache_ttl))) [
      | inl b ↦ rw (e, b, resolve_app_name) (inl (at, refl, ground arith), (at, e, ground arith))
      | inr b ↦
          rw (e, b, resolve_app_name)
            (inr refl, (now, get-store_name cache pid (fresh_name proc_name pid) now, omega arith))
    ]

-- The cache is within its bound, or every entry is less than five minutes old.
abbrev pub IsBounded : ℕ → NameCache → Type 0
IsBounded now cache =
    (length cache ≤ pid_cache_max) ⊎ All (λ entry. now < entry.1.1 + seconds 300) cache

-- Storing a name leaves at most 500 names, or else none that is five minutes old.
pub store_name-IsBounded :
    (cache : NameCache) (pid : ℕ) (name : String) (now : ℕ)
    → IsBounded now (store_name cache pid name now)
unfolding store_name
store_name-IsBounded cache pid name now =
    let stored = put cache pid (name, now) in
    elim (Bool-cases (ltb pid_cache_max (length stored))) [
      | inl e ↦ rw e (
          inr (
            All-map (keep (λ x. ltb now (x.1.1 + seconds 300)) stored) (λ x h. ground arith)
              (All-keep_test (λ x. ltb now (x.1.1 + seconds 300)) stored)))
      | inr e ↦ rw e (inl (ground arith))
    ]
