-- ===== src/Container/Pass.antt =====
-- One pass of the scheduler over the registered jobs.
use port_sentinel.Base.{
  Bool, true, false, ℕ, ◌≤◌, ◌≡◌, ◌∙◌, ap, refl, [], ◌∷◌, if◌then◌else◌, Bool, true,
}
use port_sentinel.Base.Floats.{Floats}
use port_sentinel.Container.{Services, flush_traffic, run_function, background_pass}
use port_sentinel.Database.Engine.{Engine}
use port_sentinel.Database.History.{get_traffic_history}
use port_sentinel.Database.Retention.{prune_old_traffic_correct}
use port_sentinel.Jobs.{BackgroundJob, is_due}

module _ (sql : Engine) {F T : Type 0} ⦃fl : Floats F⦄ where
  evict-database :
      (b : Bool) (s : Services sql F T) (clock : ℕ → ℕ)
      → (if b then run_function sql 1 s clock else s).database ≡ s.database
  unfolding run_function
  evict-database true s clock = refl
  evict-database false s clock = refl

  prune-get_traffic_history :
      (b : Bool) (s : Services sql F T) (clock : ℕ → ℕ) (port hours later : ℕ)
      → hours ≤ 24
      → clock 0 ≤ later
      → get_traffic_history sql
          (if b then run_function sql 2 s clock else s).database
          port
          hours
          later
        ≡ get_traffic_history sql s.database port hours later
  unfolding run_function
  prune-get_traffic_history true s clock port hours later h k =
      (prune_old_traffic_correct sql s.database port hours 24 (clock 0) later h k).0
  prune-get_traffic_history false s clock port hours later h k = refl

  -- After a pass over the three jobs, whichever of them are due, a query of the history of a port
  -- for up to 24 hours, at a time no earlier than that of the pruning, returns what it returns
  -- after the flush alone, if that is due, and otherwise what it returned before.
  pub background_pass_correct :
      (now : ℕ) (clock : ℕ → ℕ → ℕ) (flush evict prune : BackgroundJob) (s : Services sql F T)
      (port hours later : ℕ)
      → hours ≤ 24
      → clock 2 0 ≤ later
      → get_traffic_history sql
          (background_pass sql now clock 0 (flush ∷ evict ∷ prune ∷ []) s).database
          port
          hours
          later
        ≡ get_traffic_history sql
            (if is_due now flush then flush_traffic sql s (clock 0) else s).database
            port
            hours
            later
  unfolding background_pass run_function
  background_pass_correct now clock flush evict prune s port hours later h k =
      let flushed = if is_due now flush then flush_traffic sql s (clock 0) else s in
      let evicted = if is_due now evict then run_function sql 1 flushed (clock 1) else flushed in
      prune-get_traffic_history (is_due now prune) evicted (clock 2) port hours later h k
      ∙ ap (λ db. get_traffic_history sql db port hours later)
          (evict-database (is_due now evict) flushed (clock 1))
