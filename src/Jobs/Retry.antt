-- ===== src/Jobs/Retry.antt =====
-- A job that fails is called again in the next pass.
use port_sentinel.Base.{
  ℕ, List, [], ◌∷◌, ◌≡◌, All, get_elem?, some, ◌+◌, length, true, ◌∙◌, ap, arith, if◌then◌else◌,
}
use port_sentinel.Jobs.{BackgroundJob, finished, failed, execute_job, is_due}
use port_sentinel.Jobs.Spacing.{Pass, jobs_after, get_elem?-tick}

module _ (jobs : List BackgroundJob) (i : ℕ) (job : BackgroundJob)
    (at : get_elem? jobs i ≡ some job) where
  called :
      (passes : List Pass) (p : Pass) (now : BackgroundJob)
      → get_elem? (jobs_after jobs passes) i ≡ some now
      → is_due p.now now ≡ true
      → get_elem? (jobs_after jobs (p ∷ passes)) i ≡ some (execute_job now (p.ends i))
  called passes p now h due =
      get_elem?-tick p.now p.ends (jobs_after jobs passes) i now h
      ∙ ap (λ b. some (if b then execute_job now (p.ends i) else now)) due

  after_failures :
      (fails : List Pass)
      → All (λ p. is_due p.now job ≡ true) fails
      → All (λ p. p.ends i ≡ failed) fails
      → get_elem? (jobs_after jobs fails) i
        ≡ some (record job { error_count = job.error_count + length fails })
  unfolding execute_job is_due
  after_failures [] due ends =
      let none_yet : job.error_count ≡ job.error_count + 0 = omega arith in
      at ∙ ap (λ n. some (record job { error_count = n })) none_yet
  after_failures (p ∷ fails) due ends =
      let one_more : job.error_count + length fails + 1 ≡ job.error_count + length (p ∷ fails) =
        omega arith in
      called fails p (record job { error_count = job.error_count + length fails })
        (after_failures fails due.1 ends.1) due.0
      ∙ ap (λ e. some (execute_job (record job { error_count = job.error_count + length fails }) e))
          ends.0
      ∙ ap (λ n. some (record job { error_count = n })) one_more

  -- A job whose calls fail in any passes in which it is due is called again in the next pass in
  -- which it is due, whatever becomes of the other jobs: if that call succeeds, then the job has
  -- one more success, at the time when the call ended, and one error for each of the passes before.
  pub jobs_after_retry :
      (fails : List Pass) (p : Pass) (time : ℕ)
      → All (λ q. is_due q.now job ≡ true) fails
      → All (λ q. q.ends i ≡ failed) fails
      → is_due p.now job ≡ true
      → p.ends i ≡ finished time
      → get_elem? (jobs_after jobs (p ∷ fails)) i
        ≡ some (record job {
          last_run = time;
          run_count = job.run_count + 1;
          error_count = job.error_count + length fails;
        })
  unfolding execute_job is_due
  jobs_after_retry fails p time dues ends due success =
      called fails p (record job { error_count = job.error_count + length fails })
        (after_failures fails dues ends) due
      ∙ ap (λ e. some (execute_job (record job { error_count = job.error_count + length fails }) e))
          success
