-- ===== src/Bridges/Darwin/Restart.antt =====
-- The rules survive a restart of the program, in the file.
use mathlib.Core.Path.{subst}
use port_sentinel.Base.{
  is_some, length, All, Bool, true, if◌then◌else◌, String, none, All, ℕ, Option, List, ◌≡◌, some,
  nat_keys, ◌∷◌, sym, Bool-cases, [], refl, ◌==◌, ap, ◌∙◌, inl, inr, arith, text_keys,
}
use port_sentinel.Base.Dict.{
  get, put, remove, values, IsDict, get-put, get-remove, put-IsDict, remove-IsDict, All-put,
  All-remove,
}
use port_sentinel.Base.Result.{Result, ok}
use port_sentinel.Bridges.{finished, timed_out, not_run, BridgeError, Outcome, is_finished}
use port_sentinel.Bridges.Darwin.Parsing.{pf_rule, rule_port}
use port_sentinel.Bridges.Darwin.Printed.{rule_port-pf_rule, strip-pf_rule}
use port_sentinel.Bridges.Darwin.{
  flushed, whole, to_end, PfRules, PfCommand, file_lines, write_pf_rules, forget_rule, unblock_port,
  Disk, to_end, flush, cleanup_all_rules,
}
use port_sentinel.Bridges.Darwin.Reading.{
  IsRule, IsSynced, recalled-same, restart, recalled-restart,
}
use port_sentinel.Bridges.Darwin.Calls.{
  accepted, with_accepted, block_port-active, with_wanted, Call, blocks, unblocks, cleans_up,
  after_call, after_calls, wanted_after, wanted, IsOneLine,
}

-- Every write and every reading of the file is whole, the file can be removed, and `pfctl -Fr` ends.
pub record IsWorking {S : Type 0} (disk : Disk S) (run : PfCommand → S → Outcome × S) : Type 0 where
  pub writes : (s : S) → disk.writing s ≡ whole
  pub reads : (s : S) → disk.reading s ≡ to_end
  pub removes : (s : S) → disk.can_remove s ≡ true
  pub flushes : (s : S) → is_finished (run flush s).0 ≡ true

record Unblocked (port : ℕ) (p q : PfRules) (answer : Result BridgeError Bool) : Type 0 where
  returns : answer ≡ ok true
  synced : IsSynced q
  gone : (k : ℕ) → get q.active k ≡ (if port == k then none else get p.active k)

write_pf_rules-IsSynced :
    (p : PfRules) → IsDict p.active → All IsRule p.active → IsSynced (write_pf_rules whole p)
unfolding write_pf_rules
write_pf_rules-IsSynced p i r = record { distinct = i; rules = r; same = refl }

module _ {S : Type 0} (disk : Disk S) (run : PfCommand → S → Outcome × S) (system : String)
    (works : IsWorking disk run) where
  forget_rule_correct :
      (port : ℕ) (p : PfRules) (o : Option (List ℕ)) (s : S)
      → get p.active port ≡ o
      → IsSynced p
      → let (answer, q, t) = forget_rule disk run system port p o s in Unblocked port p q answer
  unfolding write_pf_rules
  forget_rule_correct port p none s e h = record {
    returns = refl;
    synced = h;
    gone = λ k. elim (Bool-cases (port == k)) [
      | inl y ↦ let same : port ≡ k = ground arith in rw (y, sym same) e
      | inr n ↦ rw n refl
    ];
  }
  forget_rule_correct port p (some rule) s e h = rw (works.writes s) (record {
    returns = refl;
    synced =
        write_pf_rules-IsSynced (record p { active = remove p.active port })
          (remove-IsDict p.active port h.distinct) (All-remove IsRule p.active port h.rules);
    gone = λ k. get-remove p.active port k h.distinct;
  })

  unblock_port_correct :
      (port : ℕ) (p : PfRules) (s : S)
      → IsSynced p
      → let (answer, q, t) = unblock_port disk run system port p s in Unblocked port p q answer
  unfolding unblock_port
  unblock_port_correct port p s h =
      rw (works.reads s, recalled-same p (get p.active port) h)
        (forget_rule_correct port p (get p.active port) s refl h)

  -- A process that has just started forgets a rule of the file as one that wrote it does.
  unblock_port-restart_same :
      (port : ℕ) (p : PfRules) (s : S)
      → IsSynced p
      → unblock_port disk run system port (restart p) s ≡ unblock_port disk run system port p s
  unfolding unblock_port get
  unblock_port-restart_same port p s h = rw (works.reads s) (
      ap (λ q. forget_rule disk run system port q (get q.active port) s)
        (recalled-restart p h ∙ sym (recalled-same p (get p.active port) h)))

  with_accepted_correct :
      (port : ℕ) (interface : String) (o : Option String) (p : PfRules) (s : S)
      (m : ℕ → Option (List ℕ))
      → IsSynced p
      → ((k : ℕ) → get p.active k ≡ m k)
      → IsSynced (with_accepted disk run system port interface o p s)
        × ((k : ℕ)
            → get (with_accepted disk run system port interface o p s).active k
              ≡ with_wanted disk run system port interface o m k)
  unfolding write_pf_rules
  with_accepted_correct port interface none p s m h g = (h, g)
  with_accepted_correct port interface (some known) p s m h g =
      let rule = pf_rule interface known port in
      rw (works.writes s) (
        write_pf_rules-IsSynced (record p { active = put p.active port rule })
            (put-IsDict p.active port rule h.distinct)
            (All-put IsRule p.active port rule
              (
                ap rule_port (strip-pf_rule interface known port)
                    ∙ rule_port-pf_rule interface known port,
                strip-pf_rule interface known port,
              )
              h.rules),
        λ k. get-put p.active port rule k ∙ ap (λ r. if port == k then some rule else r) (g k),
      )

  abbrev AgreesWith : (ℕ → Option (List ℕ)) → PfRules → Type 0
  AgreesWith m p = IsSynced p × ((k : ℕ) → get p.active k ≡ m k)

  -- A cleanup whose `pfctl` ended.
  ended :
      (p : PfRules) (o : Outcome) (t : S)
      → is_finished o ≡ true
      → AgreesWith
          (λ k. none)
          (flushed disk run system (length p.active) (record p { active = [] }) (o, t)).1
  unfolding get
  ended p (finished code out) t h = rw (works.removes t) (elim (Bool-cases (is_some p.file)) [
    | inl y ↦ rw y (record { distinct = tt; rules = tt; same = refl }, λ k. refl)
    | inr n ↦ rw n (record { distinct = tt; rules = tt; same = refl }, λ k. refl)
  ])
  ended p timed_out t h = cc
  ended p not_run t h = cc

  after_cleanup_correct :
      (p : PfRules) (s : S) → AgreesWith (λ k. none) (after_call disk run system cleans_up (p, s)).0
  unfolding cleanup_all_rules get
  after_cleanup_correct p s = let (o, t) = run flush s in ended p o t (works.flushes s)

  after_call_correct :
      (call : Call disk run system) (p : PfRules) (s : S) (m : ℕ → Option (List ℕ))
      → AgreesWith m p
      → AgreesWith (wanted_after disk run system call m) (after_call disk run system call (p, s)).0
  after_call_correct (blocks port protocol interface) p s m (h, g) =
      subst (AgreesWith (wanted_after disk run system (blocks port protocol interface) m))
        (sym (block_port-active disk run system port protocol interface p s))
        (with_accepted_correct port interface (accepted disk run system port protocol interface) p s
          m h g)
  after_call_correct (unblocks port) p s m (h, g) =
      let done = unblock_port_correct port p s h in
      (done.synced, λ k. done.gone k ∙ ap (λ r. if port == k then none else r) (g k))
  after_call_correct cleans_up p s m (h, g) = after_cleanup_correct p s

  after_calls_correct :
      (calls : List (Call disk run system)) (p : PfRules) (s : S) (m : ℕ → Option (List ℕ))
      → AgreesWith m p
      → AgreesWith (wanted disk run system calls m) (after_calls disk run system calls (p, s)).0
  unfolding after_calls wanted
  after_calls_correct [] p s m a = a
  after_calls_correct (call ∷ calls) p s m a =
      let (q, t) = after_call disk run system call (p, s) in
      after_calls_correct calls q t (wanted_after disk run system call m)
        (after_call_correct call p s m a)

  -- If the rules file can be written, read and removed as a whole, and `pfctl -Fr` ends, whatever
  -- comes of its other calls: after any calls of block_port, unblock_port and cleanup_all_rules, none
  -- with a line end in its interface, that start with the same rules in memory and in the file, a
  -- new process, which has no rule in memory, unblocks a port and returns True, be there a rule
  -- for the port or not. It then has in memory for each other port the rule of the last accepted
  -- call of block_port for it, or else the rule at the start, unless a later call unblocks the port
  -- or cleans up; for the port itself it has none, and the file has the rules in memory.
  pub unblock_port-restart :
      (start : PfRules) (calls : List (Call disk run system)) (port : ℕ) (s : S)
      → IsSynced start
      → All (IsOneLine disk run system) calls
      → let (p, t) = after_calls disk run system calls (start, s) in
        let (answer, q, u) = unblock_port disk run system port (restart p) t in
        (answer ≡ ok true)
        × ((k : ℕ)
            → get q.active k
              ≡ (if port == k then none else wanted disk run system calls (get start.active) k))
        × (file_lines q.file ≡ values q.active)
  unblock_port-restart start calls port s synced lines =
      let (p, t) = after_calls disk run system calls (start, s) in
      let (h, g) = after_calls_correct calls start s (get start.active) (synced, λ k. refl) in
      let done = unblock_port_correct port p t h in
      rw (unblock_port-restart_same port p t h) (
        done.returns,
        (λ k. done.gone k ∙ ap (λ r. if port == k then none else r) (g k)),
        done.synced.same,
      )
