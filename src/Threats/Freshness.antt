-- ===== src/Threats/Freshness.antt =====
-- What `get_ip_metadata` answers is what was last stored, and is not old.
use mathlib.Core.Path.{subst}
use mathlib.Core.Option.{some-ne-none, some-injective}
use port_sentinel.Base.Time.{seconds}
use port_sentinel.Domain.Metadata.{Metadata}
use port_sentinel.Base.Dict.{get, put}
use port_sentinel.Base.Floats.{Floats}
use port_sentinel.Base.{
  text_keys, ◌∷◌, String, Option, ℕ, ◌≡◌, Bool-cases, some, ltb, none, inl, or_else, ◌⊎◌, inr, ◌∙◌,
  ◌+◌, Bool, [], refl, sym, length, true, is_some, ap, List, ◌<◌, false, Option-cases, arith,
}
use mathlib.Core.Option
use port_sentinel.Threats.{
  ThreatIntel, Lookup, Fetched, new_threat_intel, is_local, get_ip_metadata, start_fetch, look_up,
  resolving, fetched_metadata, fetch_background, cache_ttl, max_cache_size,
}
use port_sentinel.Threats.Holding.{
  Call, asked, fetched, Memory, noted, Holds, after_start, stored-Holds, drop_oldest-Holds,
  look_up-Holds,
}

module _ {F : Type 0} ⦃fl : Floats F⦄ where
  module _ (is_address : String → Bool) where
    abbrev pub perform : ThreatIntel F → Call F → ThreatIntel F
    perform s (asked ip clock) = (get_ip_metadata is_address s ip clock).after
    perform s (fetched ip found now) = fetch_background s ip found now

    -- Calls are listed with the last one first.
    abbrev pub after_calls : List (Call F) → ThreatIntel F
    after_calls [] = new_threat_intel
    after_calls (call ∷ earlier) = perform (after_calls earlier) call

    abbrev pub after_fetch : ThreatIntel F → Memory F → String → Option (Fetched F) → ℕ → Memory F
    after_fetch s mem ip none now = mem
    after_fetch s mem ip (some found) now = noted mem ip (fetched_metadata s ip found) now

    -- What was last stored of each address, and when: the mark of a fetch that was started, or the
    -- answer of one that ended well.
    abbrev pub memory : List (Call F) → Memory F
    memory [] = λ ip. none
    memory (asked ip clock ∷ earlier) =
        after_start (memory earlier) ip
          (get_ip_metadata is_address (after_calls earlier) ip clock).fetches
    memory (fetched ip found now ∷ earlier) =
        after_fetch (after_calls earlier) (memory earlier) ip found now

    asked-Holds :
        (mem : Memory F) (s : ThreatIntel F) (ip : String) (clock : ℕ → ℕ)
        → Holds mem s
        → let l = get_ip_metadata is_address s ip clock in
          Holds (after_start mem ip l.fetches) l.after
    unfolding get_ip_metadata
    asked-Holds mem s ip clock h = elim (Bool-cases (is_local ip)) [
      | inl y ↦ rw y h
      | inr n ↦ elim (Bool-cases (is_address ip)) [
        | inl y ↦ rw (n, y) (look_up-Holds mem (get s.metadata_cache ip) s ip clock refl h)
        | inr m ↦ rw (n, m) h
      ]
    ]

    fetched-Holds :
        (mem : Memory F) (s : ThreatIntel F) (ip : String) (found : Option (Fetched F)) (now : ℕ)
        → Holds mem s
        → Holds (after_fetch s mem ip found now) (fetch_background s ip found now)
    unfolding fetch_background
    fetched-Holds mem s ip none now h = h
    fetched-Holds mem s ip (some found) now h =
        let m = fetched_metadata s ip found in
        let kept = stored-Holds mem s ip m now h in
        let cache = put s.metadata_cache ip m in
        elim (Bool-cases (ltb max_cache_size (length cache))) [
          | inl y ↦ rw y (
              drop_oldest-Holds (noted mem ip m now) cache
                (record s {
                  metadata_cache = cache;
                  cache_timestamps = put s.cache_timestamps ip now;
                })
                kept)
          | inr n ↦ rw n kept
        ]

    after_calls-Holds : (calls : List (Call F)) → Holds (memory calls) (after_calls calls)
    unfolding get
    after_calls-Holds [] = record { one_metadata = tt; one_timestamp = tt; known = λ ip. inl refl }
    after_calls-Holds (asked ip clock ∷ earlier) =
        asked-Holds (memory earlier) (after_calls earlier) ip clock (after_calls-Holds earlier)
    after_calls-Holds (fetched ip found now ∷ earlier) =
        fetched-Holds (memory earlier) (after_calls earlier) ip found now
          (after_calls-Holds earlier)

    -- An answer from the cache: what was last stored of the address, less than an hour before.
    abbrev pub IsFresh : Memory F → String → ℕ → Lookup F → Type 0
    IsFresh mem ip now l =
        (t : ℕ) × (mem ip ≡ some (l.answer, t)) × (now < t + seconds cache_ttl) × (l.fetches ≡ none)

    known-IsFresh :
        (mem : Memory F) (s : ThreatIntel F) (ip : String) (m : Metadata F) (now : ℕ)
        → get s.metadata_cache ip ≡ some m
        → Holds mem s
        → ltb now (or_else (get s.cache_timestamps ip) 0 + seconds cache_ttl) ≡ true
        → (t : ℕ) × (mem ip ≡ some (m, t)) × (now < t + seconds cache_ttl)
    known-IsFresh mem s ip m now e h young = elim (h.known ip) [
      | inl gone ↦ absurd (some-ne-none m (sym e ∙ gone))
      | inr (km, kt) ↦ elim (Option-cases (mem ip)) [
        | inl none_known ↦
            absurd (some-ne-none m (sym e ∙ km ∙ ap (Option.map (λ k. k.0)) none_known))
        | inr ((m', t), k) ↦
            let same : m' ≡ m =
              some-injective m' m (sym (ap (Option.map (λ k. k.0)) k) ∙ sym km ∙ e) in
            let time : get s.cache_timestamps ip ≡ some t = kt ∙ ap (Option.map (λ k. k.1)) k in
            let young' : ltb now (t + seconds cache_ttl) ≡ true =
              subst (λ o. ltb now (or_else o 0 + seconds cache_ttl) ≡ true) time young in
            (t, k ∙ ap (λ q. some (q, t)) same, ground (arith, young'))
      ]
    ]

    look_up-IsFresh :
        (mem : Memory F) (o : Option (Metadata F)) (s : ThreatIntel F) (ip : String) (clock : ℕ → ℕ)
        → get s.metadata_cache ip ≡ o
        → Holds mem s
        → let l = look_up o s ip clock in
          ((l.answer ≡ resolving) × (is_some l.fetches ≡ true)) ⊎ IsFresh mem ip (clock 0) l
    unfolding start_fetch
    look_up-IsFresh mem none s ip clock e h = inl (refl, refl)
    look_up-IsFresh mem (some m) s ip clock e h =
        elim (Bool-cases
          (ltb (clock 0) (or_else (get s.cache_timestamps ip) 0 + seconds cache_ttl))) [
            | inl y ↦
                let (t, known, young) = known-IsFresh mem s ip m (clock 0) e h y in
                rw y (inr (t, known, young, refl))
            | inr n ↦ rw n (inl (refl, refl))
          ]

    -- After any calls and fetches, the answer for an address that is not local is either that it is
    -- being resolved, with a fetch started, or what was last stored of the address, less than an
    -- hour before.
    pub get_ip_metadata-IsFresh :
        (calls : List (Call F)) (ip : String) (clock : ℕ → ℕ)
        → is_local ip ≡ false
        → is_address ip ≡ true
        → let l = get_ip_metadata is_address (after_calls calls) ip clock in
          ((l.answer ≡ resolving) × (is_some l.fetches ≡ true))
          ⊎ IsFresh (memory calls) ip (clock 0) l
    unfolding get_ip_metadata
    get_ip_metadata-IsFresh calls ip clock remote valid =
        let s = after_calls calls in
        rw (remote, valid)
          (look_up-IsFresh (memory calls) (get s.metadata_cache ip) s ip clock refl
            (after_calls-Holds calls))
