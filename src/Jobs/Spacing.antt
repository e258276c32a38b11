-- ===== src/Jobs/Spacing.antt =====
-- A job is run again only when its interval has passed since it last succeeded.
use mathlib.Core.Path.{ap₂}
use port_sentinel.Jobs.{
  BackgroundJob, Ending, finished, failed, execute_job, is_due, run_where, tick,
}
use port_sentinel.Base.{
  if◌then◌else◌, ℕ, zero, suc, List, [], ◌∷◌, ◌≡◌, All, get_elem?, Option, Bool, ◌≤◌, arith, false,
  some, ◌+◌, true, ap, All-map, none, length, ◌∙◌, Bool-cases, inl, inr, refl,
}

pub record Pass : Type 0 where
  pub now : ℕ
  pub ends : ℕ → Ending

-- The clock is not set back during a call.
abbrev pub IsForward : ℕ → Ending → Type 0
IsForward now (finished time) = now ≤ time
IsForward now failed = Unit

-- Passes are listed with the last one first.
abbrev pub jobs_after : List BackgroundJob → List Pass → List BackgroundJob
jobs_after jobs [] = jobs
jobs_after jobs (p ∷ earlier) = tick p.now p.ends (jobs_after jobs earlier)

abbrev pub starts : ℕ → Option BackgroundJob → Bool
starts now none = false
starts now (some job) = is_due now job

-- The runs of the job at a position: when each started, and how it ended.
abbrev pub runs : List BackgroundJob → List Pass → ℕ → List (ℕ × Ending)
runs jobs [] i = []
runs jobs (p ∷ earlier) i =
    if starts p.now (get_elem? (jobs_after jobs earlier) i)
    then (p.now, p.ends i) ∷ runs jobs earlier i
    else runs jobs earlier i

-- A run that succeeded did so no later than at a time.
abbrev pub EndedBy : ℕ → ℕ × Ending → Type 0
EndedBy time (start, finished at) = at ≤ time
EndedBy time (start, failed) = Unit

abbrev pub Apart : ℕ → ℕ → ℕ × Ending → Type 0
Apart interval next (start, finished at) = at + interval ≤ next
Apart interval next (start, failed) = Unit

-- Each run starts at least the interval after every earlier success.
abbrev pub IsSpaced : ℕ → List (ℕ × Ending) → Type 0
IsSpaced interval [] = Unit
IsSpaced interval (run ∷ earlier) = All (Apart interval run.0) earlier × IsSpaced interval earlier

abbrev pub successes : List (ℕ × Ending) → ℕ
successes [] = 0
successes ((start, finished at) ∷ earlier) = suc (successes earlier)
successes ((start, failed) ∷ earlier) = successes earlier

get_elem?-run_where :
    (test : BackgroundJob → Bool) (ends : ℕ → Ending) (jobs : List BackgroundJob) (j i : ℕ)
    (job : BackgroundJob)
    → get_elem? jobs i ≡ some job
    → get_elem? (run_where test ends j jobs) i
      ≡ some (if test job then execute_job job (ends (j + i)) else job)
unfolding run_where
get_elem?-run_where test ends [] j i job h = cc
get_elem?-run_where test ends (x ∷ jobs) j zero job h =
    let same : x ≡ job = ground arith in
    let place : j ≡ j + zero = omega arith in
    ap some (ap₂ (λ y n. if test y then execute_job y (ends n) else y) same place)
get_elem?-run_where test ends (x ∷ jobs) j (suc i) job h =
    let place : suc j + i ≡ j + suc i = omega arith in
    get_elem?-run_where test ends jobs (suc j) i job h
    ∙ ap (λ n. some (if test job then execute_job job (ends n) else job)) place

pub get_elem?-tick :
    (now : ℕ) (ends : ℕ → Ending) (jobs : List BackgroundJob) (i : ℕ) (job : BackgroundJob)
    → get_elem? jobs i ≡ some job
    → get_elem? (tick now ends jobs) i
      ≡ some (if is_due now job then execute_job job (ends i) else job)
unfolding tick
get_elem?-tick now ends jobs i job h =
    let place : 0 + i ≡ i = omega arith in
    get_elem?-run_where (is_due now) ends jobs 0 i job h
    ∙ ap (λ n. some (if is_due now job then execute_job job (ends n) else job)) place

-- What is true of a job after its runs.
record IsJob (start job : BackgroundJob) (log : List (ℕ × Ending)) : Type 0 where
  interval : job.interval ≡ start.interval
  ended : All (EndedBy job.last_run) log
  spaced : IsSpaced start.interval log
  run_count : job.run_count ≡ start.run_count + successes log
  error_count : job.error_count + successes log ≡ start.error_count + length log

later : (a b : ℕ) (e : ℕ × Ending) → a ≤ b → EndedBy a e → EndedBy b e
later a b (start, finished at) h e = omega arith
later a b (start, failed) h e = tt

EndedBy-Apart :
    (last interval next : ℕ) (e : ℕ × Ending)
    → last + interval ≤ next
    → EndedBy last e
    → Apart interval next e
EndedBy-Apart last interval next (start, finished at) h e = omega arith
EndedBy-Apart last interval next (start, failed) h e = tt

executed-IsJob :
    (start job : BackgroundJob) (log : List (ℕ × Ending)) (now : ℕ) (ending : Ending)
    → IsJob start job log
    → IsForward now ending
    → is_due now job ≡ true
    → IsJob start (execute_job job ending) ((now, ending) ∷ log)
unfolding execute_job is_due
executed-IsJob start job log now (finished time) h forward due =
    let early : job.last_run + start.interval ≤ now = ground (arith, h.interval) in
    let old : job.last_run ≤ time = omega arith in
    record {
      interval = h.interval;
      ended = (omega arith, All-map log (λ e. later job.last_run time e old) h.ended);
      spaced = (
        All-map log (λ e. EndedBy-Apart job.last_run start.interval now e early) h.ended,
        h.spaced,
      );
      run_count = omega (arith, h.run_count);
      error_count = omega (arith, h.error_count);
    }
executed-IsJob start job log now failed h forward due =
    let early : job.last_run + start.interval ≤ now = ground (arith, h.interval) in
    record {
      interval = h.interval;
      ended = (tt, h.ended);
      spaced = (
        All-map log (λ e. EndedBy-Apart job.last_run start.interval now e early) h.ended,
        h.spaced,
      );
      run_count = h.run_count;
      error_count = omega (arith, h.error_count);
    }

module _ (jobs : List BackgroundJob) (i : ℕ) (job : BackgroundJob)
    (at : get_elem? jobs i ≡ some job) where
  runs-IsJob :
      (passes : List Pass)
      → All (λ p. IsForward p.now (p.ends i)) passes
      → (job' : BackgroundJob) × (get_elem? (jobs_after jobs passes) i ≡ some job')
        × IsJob job job' (runs jobs passes i)
  runs-IsJob [] forward = (
    job,
    at,
    record {
      interval = refl;
      ended = tt;
      spaced = tt;
      run_count = omega arith;
      error_count = omega arith;
    },
  )
  runs-IsJob (p ∷ earlier) forward =
      let (job', found, good) = runs-IsJob earlier forward.1 in
      let next = get_elem?-tick p.now p.ends (jobs_after jobs earlier) i job' found in
      elim (Bool-cases (is_due p.now job')) [
        | inl due ↦ (
          execute_job job' (p.ends i),
          next ∙ rw due refl,
          rw (found, due)
              (executed-IsJob job job' (runs jobs earlier i) p.now (p.ends i) good forward.0 due),
        )
        | inr idle ↦ (job', next ∙ rw idle refl, rw (found, idle) good)
      ]

  -- If no call ends before the pass that made it started, each run of a job starts at least the
  -- job's interval after the end of every earlier run that succeeded; and the job counts its
  -- successes and its errors, which are all its runs.
  pub runs-IsSpaced :
      (passes : List Pass)
      → All (λ p. IsForward p.now (p.ends i)) passes
      → IsSpaced job.interval (runs jobs passes i)
        × ((job' : BackgroundJob) × (get_elem? (jobs_after jobs passes) i ≡ some job')
            × (job'.run_count ≡ job.run_count + successes (runs jobs passes i))
            × (job'.error_count + successes (runs jobs passes i)
                ≡ job.error_count + length (runs jobs passes i)))
  runs-IsSpaced passes forward =
      let (job', found, good) = runs-IsJob passes forward in
      (good.spaced, (job', found, good.run_count, good.error_count))
