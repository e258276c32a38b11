-- ===== src/Threats/Holding.antt =====
-- What the cache of metadata holds after the parts of a call.
use mathlib.Core.Option.{some-ne-none, some-injective}
use port_sentinel.Base.Time.{seconds}
use port_sentinel.Domain.Metadata.{Metadata}
use port_sentinel.Base.Dict.{
  IsDict, Dict, get, remove-IsDict, put, remove, put-IsDict, get-put, get-remove,
}
use port_sentinel.Base.Floats.{Floats}
use port_sentinel.Base.{
  text_keys, ◌∷◌, String, Option, ℕ, ◌≡◌, Bool-cases, some, if◌then◌else◌, ltb, ◌==◌, none, inl,
  or_else, ◌⊎◌, inr, ◌∙◌, ◌+◌, [], refl, sym, ap,
}
use mathlib.Core.Option
use port_sentinel.Threats.{
  ThreatIntel, Fetched, start_fetch, forget, look_up, resolving, drop_oldest, cache_ttl,
}

-- The calls that change the cache, with the readings of the clock and what the service answers.
pub data Call (F : Type 0) : Type 0 where
  asked : (ip : String) (clock : ℕ → ℕ) → Call F
  fetched : (ip : String) (found : Option (Fetched F)) (now : ℕ) → Call F

abbrev pub Memory : Type 0 → Type 0
Memory F = String → Option (Metadata F × ℕ)

abbrev pub noted : {F : Type 0} → Memory F → String → Metadata F → ℕ → Memory F
noted mem ip m now j = if ip == j then some (m, now) else mem j

-- The cache holds, of an address, what is in the memory, or nothing.
pub record Holds {F : Type 0} (mem : Memory F) (s : ThreatIntel F) : Type 0 where
  pub one_metadata : IsDict s.metadata_cache
  pub one_timestamp : IsDict s.cache_timestamps
  pub known :
      (ip : String)
      → (get s.metadata_cache ip ≡ none)
        ⊎ ((get s.metadata_cache ip ≡ Option.map (λ k. k.0) (mem ip))
            × (get s.cache_timestamps ip ≡ Option.map (λ k. k.1) (mem ip)))

module _ {F : Type 0} ⦃fl : Floats F⦄ where
  pub forget-Holds :
      (mem : Memory F) (s : ThreatIntel F) (ip : String) → Holds mem s → Holds mem (forget s ip)
  forget-Holds mem s ip h = record {
    one_metadata = remove-IsDict s.metadata_cache ip h.one_metadata;
    one_timestamp = remove-IsDict s.cache_timestamps ip h.one_timestamp;
    known = λ j. elim (Bool-cases (ip == j)) [
      | inl y ↦ inl (get-remove s.metadata_cache ip j h.one_metadata ∙ rw y refl)
      | inr n ↦
          rw
            (
              get-remove s.metadata_cache ip j h.one_metadata,
              get-remove s.cache_timestamps ip j h.one_timestamp,
              n,
            )
            (h.known j)
    ];
  }

  pub stored-Holds :
      (mem : Memory F) (s : ThreatIntel F) (ip : String) (m : Metadata F) (now : ℕ)
      → Holds mem s
      → Holds (noted mem ip m now) (record s {
        metadata_cache = put s.metadata_cache ip m;
        cache_timestamps = put s.cache_timestamps ip now;
      })
  stored-Holds mem s ip m now h = record {
    one_metadata = put-IsDict s.metadata_cache ip m h.one_metadata;
    one_timestamp = put-IsDict s.cache_timestamps ip now h.one_timestamp;
    known = λ j. elim (Bool-cases (ip == j)) [
      | inl y ↦
          rw (get-put s.metadata_cache ip m j, get-put s.cache_timestamps ip now j, y)
            (inr (refl, refl))
      | inr n ↦
          rw (get-put s.metadata_cache ip m j, get-put s.cache_timestamps ip now j, n) (h.known j)
    ];
  }

  -- Moving an entry to the end.
  pub moved-Holds :
      (mem : Memory F) (s : ThreatIntel F) (ip : String) (m : Metadata F)
      → get s.metadata_cache ip ≡ some m
      → Holds mem s
      → Holds mem (record s { metadata_cache = put (remove s.metadata_cache ip) ip m })
  moved-Holds mem s ip m e h = record {
    one_metadata =
        put-IsDict (remove s.metadata_cache ip) ip m
          (remove-IsDict s.metadata_cache ip h.one_metadata);
    one_timestamp = h.one_timestamp;
    known = λ j.
        let same : get (put (remove s.metadata_cache ip) ip m) j ≡ get s.metadata_cache j =
          get-put (remove s.metadata_cache ip) ip m j ∙ elim (Bool-cases (ip == j)) [
            | inl y ↦
                let q : ip ≡ j = (text_keys.same_iff ip j).0 y in
                rw y (sym e ∙ ap (get s.metadata_cache) q)
            | inr n ↦ rw n (get-remove s.metadata_cache ip j h.one_metadata ∙ rw n refl)
          ] in
        rw same (h.known j);
  }

  pub drop_oldest-Holds :
      (mem : Memory F) (d : Dict String (Metadata F)) (s : ThreatIntel F)
      → Holds mem s
      → Holds mem (drop_oldest d s)
  drop_oldest-Holds mem [] s h = h
  drop_oldest-Holds mem ((oldest, m) ∷ rest) s h = forget-Holds mem s oldest h

  -- What is in the memory after a call that started a fetch at a time, or none.
  abbrev pub after_start : Memory F → String → Option ℕ → Memory F
  after_start mem ip none = mem
  after_start mem ip (some now) = noted mem ip resolving now

  pub look_up-Holds :
      (mem : Memory F) (o : Option (Metadata F)) (s : ThreatIntel F) (ip : String) (clock : ℕ → ℕ)
      → get s.metadata_cache ip ≡ o
      → Holds mem s
      → Holds (after_start mem ip (look_up o s ip clock).fetches) (look_up o s ip clock).after
  unfolding start_fetch
  look_up-Holds mem none s ip clock e h = stored-Holds mem s ip resolving (clock 0) h
  look_up-Holds mem (some m) s ip clock e h =
      elim (Bool-cases
        (ltb (clock 0) (or_else (get s.cache_timestamps ip) 0 + seconds cache_ttl))) [
          | inl y ↦ rw y (moved-Holds mem s ip m e h)
          | inr n ↦
              rw n (stored-Holds mem (forget s ip) ip resolving (clock 1) (forget-Holds mem s ip h))
        ]
