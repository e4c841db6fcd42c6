-- ===== src/Entity/Job/States.antt =====
-- What a report of the executor, and a decision of the scheduler, make of a job's states.
use flotta_device_worker_ng.Base.{
  ℕ, ◌≡◌, ap₂, ◌∙◌, Bool, true, false, List, [], ◌∷◌, if◌then◌else◌, arith,
}
use flotta_device_worker_ng.Entity.State.{JobState, ready, exited, unknown, inactive}
use flotta_device_worker_ng.Entity.Job.{
  Job, HookType, JobStateHook, compute_restart, log_target, hook_eq, run_hook, run_hooks,
  set_target_state, set_current_state, store_current, pre_set_current_state, post_set_current_state,
  pre_set_target_state, post_set_target_state,
}

-- The fields that no hook touches.
pub record Keeps (j k : Job) : Type 0 where
  pub workload : k.workload ≡ j.workload
  pub current_state : k.current_state ≡ j.current_state
  pub target_state : k.target_state ≡ j.target_state
  pub marked : k.marked_for_deletion ≡ j.marked_for_deletion
  pub cron : k.cron ≡ j.cron
  pub hooks : k.hooks ≡ j.hooks
  pub current_resources : k.current_resources ≡ j.current_resources
  pub target_resources : k.target_resources ≡ j.target_resources

run_hook-Keeps :
    (now : ℕ) (s : JobState) (h : JobStateHook) (j : Job) → Keeps j (run_hook now s h j)
unfolding run_hook
run_hook-Keeps now s compute_restart j = ground arith
run_hook-Keeps now s log_target j = ground arith

Keeps-trans : {i j k : Job} → Keeps i j → Keeps j k → Keeps i k
Keeps-trans h k = ground arith

Keeps-refl : (j : Job) → Keeps j j
Keeps-refl j = ground arith

Keeps-if : (b : Bool) {j k : Job} → Keeps j k → Keeps j (if b then k else j)
Keeps-if true h = h
Keeps-if false {j} h = Keeps-refl j

pub run_hooks-Keeps :
    (now : ℕ) (s : JobState) (type : HookType) (hs : List (HookType × JobStateHook)) (j : Job)
    → Keeps j (run_hooks now s type hs j)
unfolding run_hooks
run_hooks-Keeps now s type [] j = Keeps-refl j
run_hooks-Keeps now s type ((name, h) ∷ hs) j =
    Keeps-trans (Keeps-if (hook_eq name type) (run_hook-Keeps now s h j))
      (run_hooks-Keeps now s type hs (if hook_eq name type then run_hook now s h j else j))

-- The state that a job is in after a report, from the report, its current and its target state.
abbrev pub observed : JobState → JobState → JobState → JobState
observed unknown ready target = ready
observed unknown inactive target = inactive
observed unknown current inactive = inactive
observed exited current inactive = inactive
observed s current target = s

-- All but the retry, and the current state, which is `s`.
pub record Sees (s : JobState) (j k : Job) : Type 0 where
  pub workload : k.workload ≡ j.workload
  pub current_state : k.current_state ≡ s
  pub target_state : k.target_state ≡ j.target_state
  pub marked : k.marked_for_deletion ≡ j.marked_for_deletion
  pub cron : k.cron ≡ j.cron
  pub hooks : k.hooks ≡ j.hooks
  pub current_resources : k.current_resources ≡ j.current_resources
  pub target_resources : k.target_resources ≡ j.target_resources

store_current-Sees :
    (now : ℕ) (s : JobState) (j : Job)
    → Sees (observed s j.current_state j.target_state) j (store_current now s j)
unfolding store_current
store_current-Sees now s j =
    ground
      (arith, run_hooks-Keeps now s post_set_current_state j.hooks (record j { current_state = s }))

-- A report sets the current state to what `observed` says: a ready or an inactive job does not become
-- unknown, and a job that is to be inactive becomes inactive where it is reported unknown or exited.
-- Nothing else of the job changes but its retry, whatever its hooks.
pub set_current_state-Sees :
    (now : ℕ) (s : JobState) (j : Job)
    → Sees (observed s j.current_state j.target_state) j (set_current_state now s j)
unfolding set_current_state
set_current_state-Sees now s j =
    let j' = run_hooks now s pre_set_current_state j.hooks j in
    let k = run_hooks-Keeps now s pre_set_current_state j.hooks j in
    let e = store_current-Sees now s j' in
    record {
      workload = e.workload ∙ k.workload;
      current_state = e.current_state ∙ ap₂ (observed s) k.current_state k.target_state;
      target_state = e.target_state ∙ k.target_state;
      marked = e.marked ∙ k.marked;
      cron = e.cron ∙ k.cron;
      hooks = e.hooks ∙ k.hooks;
      current_resources = e.current_resources ∙ k.current_resources;
      target_resources = e.target_resources ∙ k.target_resources;
    }

-- A decision of the scheduler sets the target state, and changes nothing else but the retry.
pub set_target_state_lem :
    (now : ℕ) (s : JobState) (j : Job)
    → ((set_target_state now s j).target_state ≡ s)
      × ((set_target_state now s j).current_state ≡ j.current_state)
      × ((set_target_state now s j).marked_for_deletion ≡ j.marked_for_deletion)
      × ((set_target_state now s j).workload ≡ j.workload)
unfolding set_target_state
set_target_state_lem now s j =
    let j' = run_hooks now s pre_set_target_state j.hooks j in
    let k = run_hooks-Keeps now s pre_set_target_state j.hooks j in
    let e = run_hooks-Keeps now s post_set_target_state j.hooks (record j' { target_state = s }) in
    (
      e.target_state,
      e.current_state ∙ k.current_state,
      e.marked ∙ k.marked,
      e.workload ∙ k.workload,
    )
