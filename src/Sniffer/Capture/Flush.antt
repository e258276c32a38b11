-- ===== src/Sniffer/Capture/Flush.antt =====
-- What a flush leaves in shared memory and in the accumulator.
use mathlib.Core.Path.{ap₂, subst, fun_ext}
use port_sentinel.Sniffer.Capture.{
  Traffic, Accum, is_live, flush_pid, to_entry, flush_entries, drop_stale,
}
use port_sentinel.Sniffer.Entry.{Platform, max_ports}
use port_sentinel.Sniffer.Memory.{Buf}
use port_sentinel.Sniffer.Shm.{PortEntry, write_port_entry}
use port_sentinel.Sniffer.Shm.Contents.{Holds, as_read, written}
use port_sentinel.Sniffer.Shm.Write.{IsWritable, write_port_entry-Holds}
use port_sentinel.Base.Dict.{Dict, get, IsDict, Absent, All-get, get-keep, get_of_Absent}
use port_sentinel.Base.Time.{seconds}
use port_sentinel.Base.{
  ℕ, ◌+◌, ◌<◌, ◌^◌, ◌≡◌, refl, ap, Bool, true, not, List, [], ◌∷◌, Option, none, some,
  if◌then◌else◌, ◌==◌, nat_keys, arith, Bool-cases, Option-cases, inl, inr, All, ltb, keep,
  All-keep, length, ◌≢◌,
}

-- An accumulated entry whose fields fit the packed entry.
pub record Fits (entry : ℕ × Traffic) : Type 0 where
  pub port : entry.0 < max_ports
  pub pid : entry.1.pid < 2 ^ 32
  pub protocol : entry.1.protocol < 256
  pub risk : entry.1.risk < 256

abbrev pub FitsPid : ℕ × ℕ → Type 0
FitsPid (port, pid) = pid < 2 ^ 32

module _ (pf : Platform) (key : List ℕ) (pid_map : Dict ℕ ℕ) (now : ℕ) where
  -- What a reader finds at a port after the flush: the entry, if the port was heard of in the last
  -- thirty seconds; nothing, if it was not; and what it found before, if it is not accumulated.
  abbrev found_at : ℕ → Option PortEntry → Option Traffic → Option PortEntry
  found_at p old none = old
  found_at p old (some t) =
      if is_live now t then some (as_read pf key (to_entry pid_map now p t)) else none

  abbrev pub flushed : Accum → (ℕ → Option PortEntry) → ℕ → Option PortEntry
  flushed accum m p = found_at p (m p) (get accum p)

  -- What a reader finds if every visible port is accumulated.
  abbrev pub visible : Accum → ℕ → Option PortEntry
  visible accum = flushed accum (λ p. none)

  abbrev pub with_pid : ℕ → Traffic → Traffic
  with_pid port t = record t { pid = flush_pid pid_map now port t }

  abbrev pub updated : Accum → Accum
  updated [] = []
  updated ((port, t) ∷ rest) = (port, with_pid port t) ∷ updated rest

  flush_pid-lt :
      (port : ℕ) (t : Traffic)
      → Fits (port, t)
      → All FitsPid pid_map
      → flush_pid pid_map now port t < 2 ^ 32
  unfolding flush_pid
  flush_pid-lt port t f pids = elim (Option-cases (get pid_map port)) [
    | inl e ↦ rw e (ground (arith, f.pid))
    | inr (pid, e) ↦
        let bound : pid < 2 ^ 32 = All-get FitsPid pid_map port pid pids e in
        rw e (ground (arith, f.pid))
  ]

  to_entry-IsWritable :
      (port : ℕ) (t : Traffic)
      → Fits (port, t)
      → All FitsPid pid_map
      → IsWritable (to_entry pid_map now port t)
  unfolding to_entry
  to_entry-IsWritable port t f pids = record {
    port = f.port;
    pid = flush_pid-lt port t f pids;
    protocol = f.protocol;
    active = ground arith;
    risk_score = f.risk;
  }

  flushed-step :
      (port : ℕ) (t : Traffic) (rest : Accum) (m : ℕ → Option PortEntry) (p : ℕ)
      → Absent port rest
      → flushed rest (written pf key m (to_entry pid_map now port t)) p
        ≡ flushed ((port, t) ∷ rest) m p
  unfolding get to_entry
  flushed-step port t rest m p a = elim (Bool-cases (port == p)) [
    | inl e ↦
        let same : port ≡ p = ground arith in
        let gone : get rest p ≡ none = get_of_Absent rest p (subst (λ k. Absent k rest) same a) in
        let entry = ap (λ q. as_read pf key (to_entry pid_map now q t)) same in
        rw (gone, e) (ground (arith, entry))
    | inr e ↦ rw e (ground arith)
  ]

  flush_entries-step :
      (port : ℕ) (t : Traffic) (rest : Accum) (buf next last : Buf)
      → write_port_entry pf key buf (to_entry pid_map now port t) ≡ some next
      → flush_entries pf key pid_map now next rest ≡ (last, updated rest, true)
      → flush_entries pf key pid_map now buf ((port, t) ∷ rest)
        ≡ (last, updated ((port, t) ∷ rest), true)
  unfolding flush_entries
  flush_entries-step port t rest buf next last wrote ran =
      rw (wrote, flush_entries) (ap (λ r. (r.0, (port, with_pid port t) ∷ r.1, r.2)) ran)

  -- The loop runs to its end.
  pub flush_entries-Holds :
      (accum : Accum) (buf : Buf) (m : ℕ → Option PortEntry)
      → Holds pf key buf m
      → IsDict accum
      → All Fits accum
      → All FitsPid pid_map
      → (buf' : Buf) × (flush_entries pf key pid_map now buf accum ≡ (buf', updated accum, true))
        × Holds pf key buf' (flushed accum m)
  unfolding flush_entries
  flush_entries-Holds [] buf m h d f pids = (buf, refl, unfold get in h)
  flush_entries-Holds ((port, t) ∷ rest) buf m h d f pids =
      let e = to_entry pid_map now port t in
      let (next, wrote, h') =
        write_port_entry-Holds pf key buf m e h (to_entry-IsWritable port t f.0 pids) in
      let (last, ran, h'') = flush_entries-Holds rest next (written pf key m e) h' d.1 f.1 pids in
      (
        last,
        flush_entries-step port t rest buf next last wrote ran,
        subst (Holds pf key last) (fun_ext (λ p. flushed-step port t rest m p d.0)) h'',
      )

  pub get-updated :
      (accum : Accum) (p : ℕ) (t : Traffic)
      → get accum p ≡ some t
      → get (updated accum) p ≡ some (with_pid p t)
  unfolding get
  get-updated [] p t h = cc
  get-updated ((port, u) ∷ rest) p t h = elim (Bool-cases (port == p)) [
    | inl e ↦
        let same : port ≡ p = ground arith in
        let value : u ≡ t = ground arith in rw e (ap some (ap₂ with_pid same value))
    | inr e ↦ rw e (get-updated rest p t (rw e at h))
  ]

  Absent-updated : (accum : Accum) (k : ℕ) → Absent k accum → Absent k (updated accum)
  Absent-updated [] k a = tt
  Absent-updated ((port, t) ∷ rest) k a = (a.0, Absent-updated rest k a.1)

  pub updated-IsDict : (accum : Accum) → IsDict accum → IsDict (updated accum)
  updated-IsDict [] d = tt
  updated-IsDict ((port, t) ∷ rest) d = (Absent-updated rest port d.0, updated-IsDict rest d.1)

  pub updated-Fits :
      (accum : Accum) → All Fits accum → All FitsPid pid_map → All Fits (updated accum)
  updated-Fits [] f pids = tt
  updated-Fits ((port, t) ∷ rest) f pids = (
    record {
      port = f.0.port;
      pid = flush_pid-lt port t f.0 pids;
      protocol = f.0.protocol;
      risk = f.0.risk;
    },
    updated-Fits rest f.1 pids,
  )

-- A live entry is not stale.
pub get-drop_stale :
    (now : ℕ) (accum : Accum) (p : ℕ) (t : Traffic)
    → get accum p ≡ some t
    → is_live now t ≡ true
    → get (drop_stale now accum) p ≡ some t
unfolding drop_stale is_live
get-drop_stale now accum p t h live =
    let fresh : not (ltb (t.last_seen + seconds 300) now) ≡ true = ground arith in
    elim (Bool-cases (ltb 5000 (length accum))) [
      | inl e ↦ rw e (get-keep (λ e. not (ltb (e.1.last_seen + seconds 300) now)) accum p t h fresh)
      | inr e ↦ rw e h
    ]

pub All-drop_stale :
    (P : ℕ × Traffic → Type 0) (now : ℕ) (accum : Accum)
    → All P accum
    → All P (drop_stale now accum)
unfolding drop_stale
All-drop_stale P now accum h = elim (Bool-cases (ltb 5000 (length accum))) [
  | inl e ↦ rw e (All-keep P (λ e. not (ltb (e.1.last_seen + seconds 300) now)) accum h)
  | inr e ↦ rw e h
]

keep-IsDict : (q : ℕ × Traffic → Bool) (d : Accum) → IsDict d → IsDict (keep q d)
unfolding keep
keep-IsDict q [] h = tt
keep-IsDict q ((j, w) ∷ d) h = elim (Bool-cases (q (j, w))) [
  | inl e ↦ rw e (All-keep (λ x. x.0 ≢ j) q d h.0, keep-IsDict q d h.1)
  | inr e ↦ rw e (keep-IsDict q d h.1)
]

pub drop_stale-IsDict : (now : ℕ) (accum : Accum) → IsDict accum → IsDict (drop_stale now accum)
unfolding drop_stale
drop_stale-IsDict now accum h = elim (Bool-cases (ltb 5000 (length accum))) [
  | inl e ↦ rw e (keep-IsDict (λ e. not (ltb (e.1.last_seen + seconds 300) now)) accum h)
  | inr e ↦ rw e h
]
