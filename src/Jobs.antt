-- ===== src/Jobs.antt =====
-- `JobScheduler` of backend/application/jobs/scheduler.py. Times are in ticks of the clock.
pub mod Spacing
pub mod Retry
use port_sentinel.Base.{if◌then◌else◌, ℕ, zero, suc, List, [], ◌∷◌, Bool, ◌+◌, String, leb, ◌++◌}

pub record BackgroundJob : Type 0 where
  pub name : String
  pub interval : ℕ
  pub run_immediately : Bool
  pub last_run : ℕ
  pub run_count : ℕ
  pub error_count : ℕ

-- How a call of a job's function ends: at a time, or with an exception.
pub data Ending : Type 0 where
  finished : ℕ → Ending
  failed : Ending

unfoldable pub new_job : String → ℕ → Bool → BackgroundJob
new_job name interval run_immediately = record {
  name = name;
  interval = interval;
  run_immediately = run_immediately;
  last_run = 0;
  run_count = 0;
  error_count = 0;
}

unfoldable pub register : List BackgroundJob → String → ℕ → Bool → List BackgroundJob
register jobs name interval run_immediately = jobs ++ new_job name interval run_immediately ∷ []

unfoldable pub execute_job : BackgroundJob → Ending → BackgroundJob
execute_job job (finished time) = record job { last_run = time; run_count = job.run_count + 1 }
execute_job job failed = record job { error_count = job.error_count + 1 }

-- `now - job.last_run >= job.interval`; a clock that was set back makes no job due.
unfoldable pub is_due : ℕ → BackgroundJob → Bool
is_due now job = leb (job.last_run + job.interval) now

-- The loop over the jobs: the job at position `i` is executed if it passes the test, and its call
-- ends as `ends i` says.
unfoldable pub run_where :
    (BackgroundJob → Bool) → (ℕ → Ending) → ℕ → List BackgroundJob → List BackgroundJob
run_where test ends i [] = []
run_where test ends i (job ∷ jobs) =
    (if test job then execute_job job (ends i) else job) ∷ run_where test ends (suc i) jobs

unfoldable pub run_immediate : (ℕ → Ending) → List BackgroundJob → List BackgroundJob
run_immediate ends jobs = run_where (λ job. job.run_immediately) ends 0 jobs

-- One pass of the `while` loop; `now` is read once.
unfoldable pub tick : ℕ → (ℕ → Ending) → List BackgroundJob → List BackgroundJob
tick now ends jobs = run_where (is_due now) ends 0 jobs
