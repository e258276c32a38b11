-- ===== src/Sniffer/Capture/Synced.antt =====
-- `_flush_to_shm` keeps the shared memory in step with the accumulator.
use port_sentinel.Base.Time.{seconds}
use port_sentinel.Sniffer.Shm.Scan.{collect, read_all_active_ports-collect}
use port_sentinel.Sniffer.Shm.Contents.{Holds}
use port_sentinel.Sniffer.Shm.{PortEntry, read_all_active_ports}
use port_sentinel.Sniffer.Entry.{Platform, max_ports}
use port_sentinel.Base.Dict.{Dict, get, IsDict, put, All-put}
use mathlib.Core.Path.{subst, fun_ext}
use port_sentinel.Sniffer.Capture.{
  Accum, Sniffer, NetConnection, is_live, drop_stale, refresh, flush_to_shm, build_pid_map,
}
use port_sentinel.Sniffer.Capture.Flush.{
  Fits, FitsPid, visible, updated, flushed, flush_entries-Holds, drop_stale-IsDict, updated-IsDict,
  get-drop_stale, All-drop_stale, with_pid, updated-Fits, get-updated,
}
use port_sentinel.Base.{
  nat_keys, ℕ, ◌≡◌, or_else, List, ◌<◌, Option, ◌^◌, All, arith, ◌∷◌, none, Bool-cases,
  Option-cases, true, ltb, ◌==◌, inl, ◌+◌, inr, [], refl,
}

-- The memory holds the entries `m`, each of an accumulated port; the accumulated fields fit.
pub record IsSynced (pf : Platform) (key : List ℕ) (s : Sniffer) (m : ℕ → Option PortEntry)
    : Type 0 where
  pub holds : Holds pf key s.buf m
  pub tracked : (p : ℕ) → get s.accum p ≡ none → m p ≡ none
  pub distinct : IsDict s.accum
  pub fits : All Fits s.accum
  pub pids : All FitsPid s.cached_pid_map

abbrev pub FitsConnection : NetConnection → Type 0
FitsConnection c = or_else c.pid 0 < 2 ^ 32

build_pid_map-FitsPid :
    (pid_map : Dict ℕ ℕ) (cs : List NetConnection)
    → All FitsPid pid_map
    → All FitsConnection cs
    → All FitsPid (build_pid_map pid_map cs)
unfolding build_pid_map
build_pid_map-FitsPid pid_map [] h a = h
build_pid_map-FitsPid pid_map (c ∷ cs) h a = elim (Bool-cases (c.local_port == 0)) [
  | inl e ↦ rw e (build_pid_map-FitsPid pid_map cs h a.1)
  | inr e ↦ rw e (
      build_pid_map-FitsPid (put pid_map c.local_port (or_else c.pid 0)) cs
        (All-put FitsPid pid_map c.local_port (or_else c.pid 0) a.0 h) a.1)
]

module _ (pf : Platform) (key : List ℕ) (now : ℕ) where
  -- If every visible port is accumulated, what the memory held before does not show.
  flushed_of_tracked :
      (pid_map : Dict ℕ ℕ) (accum : Accum) (m : ℕ → Option PortEntry)
      → ((p : ℕ) → get accum p ≡ none → m p ≡ none)
      → flushed pf key pid_map now accum m ≡ visible pf key pid_map now accum
  flushed_of_tracked pid_map accum m tracked =
      fun_ext
        (λ p. elim (Option-cases (get accum p)) [ inl e ↦ rw e (tracked p e) | inr (t, e) ↦ rw e ])

  visible_of_dropped :
      (pid_map : Dict ℕ ℕ) (accum : Accum) (p : ℕ)
      → get (drop_stale now (updated pf key pid_map now accum)) p ≡ none
      → visible pf key pid_map now accum p ≡ none
  visible_of_dropped pid_map accum p h = elim (Option-cases (get accum p)) [
    | inl e ↦ rw e
    | inr (t, e) ↦ elim (Bool-cases (is_live now t)) [
      | inl live ↦
          let kept =
            get-drop_stale now (updated pf key pid_map now accum) p
              (with_pid pf key pid_map now p t) (get-updated pf key pid_map now accum p t e)
              (unfold is_live in live) in
          absurd (ground (arith, kept))
      | inr old ↦ rw (e, old)
    ]
  ]

  refresh-IsSynced :
      (s : Sniffer) (m : ℕ → Option PortEntry) (cs : List NetConnection)
      → IsSynced pf key s m
      → All FitsConnection cs
      → IsSynced pf key (refresh s now cs) m
  unfolding refresh
  refresh-IsSynced s m cs h a = elim (Bool-cases (ltb (s.last_pid_map_update + seconds 2) now)) [
    | inl e ↦ rw e (record {
      holds = h.holds;
      tracked = h.tracked;
      distinct = h.distinct;
      fits = h.fits;
      pids = build_pid_map-FitsPid [] cs tt a;
    })
    | inr e ↦ rw e h
  ]

  -- The contents after a flush.
  abbrev pub contents : Sniffer → List NetConnection → ℕ → Option PortEntry
  contents s cs = visible pf key (refresh s now cs).cached_pid_map now (refresh s now cs).accum

  flush-IsSynced :
      (s : Sniffer) (m : ℕ → Option PortEntry) (cs : List NetConnection)
      → IsSynced pf key s m
      → All FitsConnection cs
      → ((flush_to_shm pf key s now cs).1 ≡ true)
        × IsSynced pf key (flush_to_shm pf key s now cs).0 (contents s cs)
  unfolding flush_to_shm
  flush-IsSynced s m cs h a =
      let s' = refresh s now cs in
      let h' = refresh-IsSynced s m cs h a in
      let (buf, ran, holds) =
        flush_entries-Holds pf key s'.cached_pid_map now s'.accum s'.buf m h'.holds h'.distinct
          h'.fits h'.pids in
      rw ran (
        refl,
        record {
          holds =
              subst (Holds pf key buf) (flushed_of_tracked s'.cached_pid_map s'.accum m h'.tracked)
                holds;
          tracked = λ p e. visible_of_dropped s'.cached_pid_map s'.accum p e;
          distinct =
              drop_stale-IsDict now (updated pf key s'.cached_pid_map now s'.accum)
                (updated-IsDict pf key s'.cached_pid_map now s'.accum h'.distinct);
          fits =
              All-drop_stale Fits now (updated pf key s'.cached_pid_map now s'.accum)
                (updated-Fits pf key s'.cached_pid_map now s'.accum h'.fits h'.pids);
          pids = h'.pids;
        },
      )

  -- If every visible port is accumulated and the accumulated fields fit, a flush runs to its end
  -- and leaves the same true; a reader then gets, in the order of ports, the entry of each
  -- accumulated port heard of in the last thirty seconds, and nothing else.
  pub flush_to_shm_correct :
      (s : Sniffer) (m : ℕ → Option PortEntry) (cs : List NetConnection)
      → IsSynced pf key s m
      → All FitsConnection cs
      → ((flush_to_shm pf key s now cs).1 ≡ true)
        × IsSynced pf key (flush_to_shm pf key s now cs).0 (contents s cs)
        × (read_all_active_ports pf key (flush_to_shm pf key s now cs).0.buf
            ≡ collect (contents s cs) 0 max_ports)
  flush_to_shm_correct s m cs h a =
      let (ran, synced) = flush-IsSynced s m cs h a in
      (
        ran,
        synced,
        read_all_active_ports-collect pf key (flush_to_shm pf key s now cs).0.buf (contents s cs)
            synced.holds,
      )
