-- ===== src/Tests/Running.antt =====
-- The background jobs on an accumulator of one recent port and an empty database.
use port_sentinel.Base.{
  ◌≡◌, ◌++◌, ℕ, List, [], ◌∷◌, some, none, map, false, if◌then◌else◌, refl, get_elem?, arith,
}
use port_sentinel.Base.Floats.{whole}
use port_sentinel.Base.Time.{seconds}
use port_sentinel.Container.{Services, flush_traffic, background_pass}
use port_sentinel.Container.Flush.{stored, row_content, flush_traffic_correct}
use port_sentinel.Container.Pass.{background_pass_correct}
use port_sentinel.Database.History.{get_traffic_history}
use port_sentinel.Jobs.{BackgroundJob, new_job, finished, failed, is_due}
use port_sentinel.Jobs.Spacing.{Pass, jobs_after}
use port_sentinel.Jobs.Retry.{jobs_after_retry}
use port_sentinel.Metrics.Accumulator.{get_port_table}
use port_sentinel.Tests.Lists.{list_engine}
use port_sentinel.Tests.Querying.{threats_accumulator}
use port_sentinel.Tests.Storing.{store}

abbrev services : Services list_engine ℕ ℕ
services = record { traffic_accumulator = threats_accumulator; database = store }

flush_traffic_correct_example :
    stored list_engine (flush_traffic list_engine services (λ n. seconds 1303)).database.traffic
    ≡ stored list_engine store.traffic
      ++ map row_content (get_port_table threats_accumulator none (seconds 1303))
flush_traffic_correct_example = flush_traffic_correct list_engine services (λ n. seconds 1303)

abbrev flush : BackgroundJob
flush = new_job "traffic_flush" (seconds 30) false

abbrev evict : BackgroundJob
evict = new_job "cache_evict" (seconds 3600) false

background_pass_correct_example :
    get_traffic_history list_engine
      (background_pass list_engine
        (seconds 4000)
        (λ i n. seconds 1303)
        0
        (flush ∷ evict ∷ evict ∷ [])
        services).database
      22
      24
      (seconds 1304)
    ≡ get_traffic_history list_engine
        (if is_due (seconds 4000) flush
          then flush_traffic list_engine services (λ n. seconds 1303)
          else services).database
        22
        24
        (seconds 1304)
background_pass_correct_example =
    background_pass_correct list_engine (seconds 4000) (λ i n. seconds 1303) flush evict evict
      services 22 24 (seconds 1304) (omega arith) (omega arith)

-- The job fails in its first two passes.
abbrev two_failures : List Pass
two_failures =
    (record { now = 21; ends = λ i. failed }) ∷ (record { now = 11; ends = λ i. failed }) ∷ []

abbrev late_pass : Pass
late_pass = record { now = 31; ends = λ i. finished 32 }

jobs_after_retry_example :
    get_elem? (jobs_after (new_job "prune" 10 false ∷ []) (late_pass ∷ two_failures)) 0
    ≡ some (record (new_job "prune" 10 false) { last_run = 32; run_count = 1; error_count = 2 })
unfolding new_job is_due
jobs_after_retry_example =
    jobs_after_retry (new_job "prune" 10 false ∷ []) 0 (new_job "prune" 10 false) refl two_failures
      late_pass 32 (refl, (refl, tt)) (refl, (refl, tt)) refl refl
