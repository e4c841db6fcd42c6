-- ===== src/Scheduler/Run/Blocks.antt =====
-- The scheduler's loop can block for ever.
use flotta_device_worker_ng.Base.{ℕ, ◌≡◌, refl, Bool, true, false, ◌||◌, Option, Bytes, arith}
use flotta_device_worker_ng.Entity.Job.{BackOff}
use flotta_device_worker_ng.Scheduler.Run.{
  Scheduler, is_live, on_input, on_results, on_evaluation, on_resources, on_heartbeat, on_rename,
  Step, Run,
}

module _ (constant : ℕ → BackOff) (parse : Bytes → Option (ℕ → ℕ)) where
  -- No branch of the loop is taken any more.
  abbrev pub IsStuck : Scheduler → Type 0
  IsStuck t = (u : Scheduler) → ¬ Step constant parse t u

  no-Step : (s t : Scheduler) → is_live s ≡ false → ¬ Step constant parse s t
  no-Step _ _ b (Step.input now opt s r) = cc (b, r)
  no-Step _ _ b (Step.results rs same s r) = cc (b, r)
  no-Step _ _ b (Step.execution time answer s r e) = cc (b, r)
  no-Step _ _ b (Step.resources answer s r e) = cc (b, r)
  no-Step _ _ b (Step.evaluation now s r e) = cc (b, r)
  no-Step _ _ b (Step.heartbeat s r) = cc (b, r)

  -- Whether a step is the branch of `executionSync`.
  abbrev pub executes : {s t : Scheduler} → Step constant parse s t → Bool
  executes (Step.execution time answer s r e) = true
  executes _ = false

  -- Whether a run takes the branch of `executionSync`.
  abbrev pub has_execution : {s t : Scheduler} → Run constant parse s t → Bool
  has_execution (Run.stop s) = false
  has_execution (Run.next st r) = executes st || has_execution r
  has_execution (Run.rename p k hash s r) = has_execution r

  -- A tick that the loop takes leaves a message in `executionSync`, or blocks the loop.
  abbrev Full : Scheduler → Type 0
  Full s = (s.execution_sync ≡ true)

  Step-Full :
      {s t : Scheduler} (st : Step constant parse s t) → executes st ≡ false → Full s → Full t
  unfolding on_input on_results on_evaluation on_resources on_heartbeat
  Step-Full (Step.input now opt s r) n f = f
  Step-Full (Step.results rs true s r) n f = f
  Step-Full (Step.results rs false s r) n f = f
  Step-Full (Step.execution time answer s r e) n f = cc n
  Step-Full (Step.resources answer s r e) n f = f
  Step-Full (Step.evaluation now s r e) n f = f
  Step-Full (Step.heartbeat s r) n f = ground (arith, f)

  run-Full :
      {s t : Scheduler} (r : Run constant parse s t) → has_execution r ≡ false → Full s → Full t
  unfolding on_rename
  run-Full (Run.stop s) n f = f
  run-Full (Run.next st r) n f = run-Full r (ground (arith, n)) (Step-Full st (ground (arith, n)) f)
  run-Full (Run.rename p k hash s r) n f = run-Full r n f

  -- Once the loop has taken a tick of the heartbeat, a second tick that it takes before the execution
  -- that the first has asked for blocks it in the send, and no branch of the loop is taken any more.
  pub heartbeats_block :
      (s t : Scheduler) (r : Run constant parse (on_heartbeat s) t)
      → has_execution r ≡ false
      → is_live t ≡ true
      → (on_heartbeat s).blocked ≡ false
      → Step constant parse t (on_heartbeat t)
        × ((on_heartbeat t).blocked ≡ true)
        × IsStuck (on_heartbeat t)
  unfolding on_heartbeat
  heartbeats_block s t r n l b =
      let first : (on_heartbeat s).execution_sync ≡ true = ground (arith, b) in
      let full = run-Full r n first in
      let blocked : (on_heartbeat t).blocked ≡ true = rw full refl in
      (Step.heartbeat t l, blocked, λ u st. no-Step (on_heartbeat t) u (ground (arith, blocked)) st)
