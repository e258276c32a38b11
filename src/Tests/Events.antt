-- ===== src/Tests/Events.antt =====
-- The event bus and the job scheduler at concrete inputs.
use port_sentinel.Jobs.Spacing.{Pass, IsSpaced, runs, jobs_after, successes, runs-IsSpaced}
use port_sentinel.Jobs.{new_job, BackgroundJob, finished, failed}
use port_sentinel.Bus.{Client, publish}
use port_sentinel.Bus.Publish.{
  Change, subscribed, subscribed_async, unsubscribed, bus_after, bit, is_subscribed, called,
  publish_once,
}
use port_sentinel.Bus.Handlers.{count}
use port_sentinel.Base.{
  nat_keys, text_keys, ℕ, ◌≡◌, refl, String, List, ◌+◌, not, ◌∷◌, [], ◌==◌, false, get_elem?, some,
  length, arith,
}

-- Handler 7 raises; the world counts the calls.
abbrev client : Client String ℕ String ℕ
client = record { run = λ h e w. (w + 1, not (h == 7)); event_type = λ e. e }

abbrev changes : List (Change String ℕ)
changes =
    subscribed_async "audit" 7
    ∷ unsubscribed "audit" 5
    ∷ subscribed "audit" 9
    ∷ subscribed "audit" 7
    ∷ subscribed "audit" 7
    ∷ subscribed "audit" 5
    ∷ []

publish_once_example :
    count 7 (called client (publish client (bus_after changes) "audit" 0))
    ≡ bit (is_subscribed changes "audit" 7)
publish_once_example = publish_once client changes "audit" 0 7

abbrev jobs : List BackgroundJob
jobs = new_job "cleanup" 300 false ∷ new_job "prune" 10 false ∷ []

-- The second job fails in its first pass, succeeds in the next, and rests in the last one.
abbrev passes : List Pass
passes =
    (record { now = 25; ends = λ i. finished 26 })
    ∷ (record { now = 20; ends = λ i. finished 21 })
    ∷ (record { now = 11; ends = λ i. failed })
    ∷ []

runs-IsSpaced_example :
    IsSpaced 10 (runs jobs passes 1)
    × ((job' : BackgroundJob) × (get_elem? (jobs_after jobs passes) 1 ≡ some job')
        × (job'.run_count ≡ 0 + successes (runs jobs passes 1))
        × (job'.error_count + successes (runs jobs passes 1) ≡ 0 + length (runs jobs passes 1)))
unfolding new_job
runs-IsSpaced_example =
    runs-IsSpaced jobs 1 (new_job "prune" 10 false) refl passes
      (omega arith, (omega arith, (tt, tt)))
