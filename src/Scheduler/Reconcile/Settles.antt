-- ===== src/Scheduler/Reconcile/Settles.antt =====
-- A reconciliation without an error leaves nothing to reconcile.
use flotta_device_worker_ng.Base.{
  ℕ, ◌≡◌, ◌≢◌, refl, ap, ap₂, ◌∙◌, subst, Bool, true, false, ◌&&◌, ◌||◌, [], ◌∷◌, Option, none,
  some, if◌then◌else◌, arith,
}
use flotta_device_worker_ng.Entity.State.{
  JobState, ready, running, exited, unknown, inactive, state_eq, one_of,
}
use flotta_device_worker_ng.Entity.Workload.{Workload, WorkloadKind, pod, ansible, k8s}
use flotta_device_worker_ng.Entity.Job.{Job, set_current_state}
use flotta_device_worker_ng.Entity.Job.States.{observed, set_current_state-Sees}
use flotta_device_worker_ng.Scheduler.Interfaces.{Executor, Shown-told, IsFaithful}
use flotta_device_worker_ng.Scheduler.Visit.{Report, should_reconcile}
use flotta_device_worker_ng.Scheduler.Reconcile.{
  done, checked, answered, start, restart, remove_workload, pod_sync, remove_k8s, k8s_sync, sync,
}

-- Whether a job in a state would be reconciled.
abbrev is_due : JobState → JobState → Bool
is_due current target =
    (state_eq target running && one_of current (ready ∷ inactive ∷ exited ∷ unknown ∷ []))
    || (one_of target (exited ∷ inactive ∷ []) && state_eq current running)

-- What a report without an error has to say of a job.
abbrev Settled : JobState → JobState → Report → Type 0
Settled current target r =
    (r.error ≡ false) → is_due (observed r.value current target) target ≡ false

state_eq-eq : (t u : JobState) → state_eq t u ≡ true → t ≡ u
state_eq-eq t u h = ground arith

observed_stopped :
    (t current target : JobState)
    → state_eq t running ≡ false
    → state_eq (observed t current target) running ≡ false
observed_stopped t current target h = ground arith

started :
    (current target t : JobState)
    → state_eq target running ≡ true
    → t ≡ running
    → is_due (observed t current target) target ≡ false
started current target t h e = rw (e, state_eq-eq target running h) refl

removed :
    (current target t : JobState)
    → state_eq target running ≡ false
    → state_eq t running ≡ false
    → is_due (observed t current target) target ≡ false
removed current target t h e = ground (arith, observed_stopped t current target e)

-- A job whose target is another state than these is never due.
other :
    (current target : JobState)
    → state_eq target running ≡ false
    → one_of target (exited ∷ inactive ∷ []) ≡ false
    → is_due current target ≡ false
other current target h e = ground arith

unmoved :
    (current target : JobState)
    → state_eq current target ≡ true
    → is_due (observed current current target) target ≡ false
unmoved current target h = ground (arith, state_eq-eq current target h)

running_kept :
    (target : JobState)
    → state_eq target running ≡ true
    → one_of target (exited ∷ inactive ∷ unknown ∷ []) ≢ true
running_kept target up stops = ground arith

abbrev report_or : {W : Type 0} → Report → Option (Report × W) → Report
report_or d none = d
report_or d (some (r, s)) = r

some_report : {W : Type 0} {x : Report × W} {r : Report} {s : W} → some x ≡ some (r, s) → x.0 ≡ r
some_report {x} e = ap (report_or x.0) e

module _ {W : Type 0} where
  answered-Settled :
      (current target : JobState) (a : Option JobState × W)
      → ((t : JobState) → a.0 ≡ some t → is_due (observed t current target) target ≡ false)
      → Settled current target (answered a).0
  answered-Settled current target (none, s) h = λ e. cc
  answered-Settled current target (some t, s) h = λ e. h t refl

  checked-Settled :
      (current target : JobState) (c : Bool × W) (rest : W → Report × W)
      → (c.0 ≡ false → Settled current target (rest c.1).0)
      → Settled current target (checked c rest).0
  checked-Settled current target (true, s) rest h = λ e. cc
  checked-Settled current target (false, s) rest h = h refl

  if-Settled :
      (current target : JobState) (b : Bool) (x y : Report × W)
      → (b ≡ true → Settled current target x.0)
      → (b ≡ false → Settled current target y.0)
      → Settled current target (if b then x else y).0
  if-Settled current target true x y h k = h refl
  if-Settled current target false x y h k = k refl

  module _ (ex : Executor W) (current target : JobState) (w : Workload)
      (law : IsFaithful ex w) where
    start-Settled :
        (s : W) → state_eq target running ≡ true → Settled current target (start ex w s).0
    start-Settled s h =
        checked-Settled current target (ex.run w s) (λ s1. answered (ex.get_state w s1))
          λ ran. answered-Settled current target (ex.get_state w (ex.run w s).1) λ t e.
            started current target t h
              (Shown-told (λ u. u ≡ running) _ _ t (law.run_starts s) ran e)

    remove-Settled :
        (s : W)
        → state_eq target running ≡ false
        → Settled current target (remove_workload ex w s).0
    remove-Settled s h =
        checked-Settled current target (ex.remove w s) (λ s1. answered (ex.get_state w s1))
          λ gone. answered-Settled current target (ex.get_state w (ex.remove w s).1) λ t e.
            removed current target t h
              (Shown-told (λ u. state_eq u running ≡ false) _ _ t (law.remove_stops s) gone e)

    restart-Settled :
        (a : Option Bool × W)
        → state_eq target running ≡ true
        → Settled current target (restart ex w a).0
    restart-Settled (none, s) h = λ e. cc
    restart-Settled (some true, s) h =
        checked-Settled current target (ex.remove w s) (start ex w)
          λ gone. start-Settled (ex.remove w s).1 h
    restart-Settled (some false, s) h = start-Settled s h

module _ {W : Type 0} (ex : Executor W) (j : Job) (law : IsFaithful ex j.workload) where
  abbrev Here : Report → Type 0
  Here r = Settled j.current_state j.target_state r

  abbrev choice :
      (b : Bool) (x y : Report × W)
      → (b ≡ true → Here x.0)
      → (b ≡ false → Here y.0)
      → Here (if b then x else y).0
  choice = if-Settled j.current_state j.target_state

  pod_sync-Settled : (s : W) → Here (pod_sync ex j s).0
  unfolding pod_sync
  pod_sync-Settled s =
      let now = j.current_state in
      let target = j.target_state in
      let w = j.workload in
      let idle = done now s in
      let stop = checked (ex.stop w s) (remove_workload ex w) in
      let stopping = if one_of target (exited ∷ inactive ∷ []) then stop else idle in
      let up = restart ex w (ex.exists w s) in
      choice (state_eq now target) idle (if state_eq target running then up else stopping)
        (λ same e. unmoved now target same)
        λ moved.
          choice (state_eq target running) up stopping
            (restart-Settled ex now target w law (ex.exists w s))
            λ down.
              choice (one_of target (exited ∷ inactive ∷ [])) stop idle
                (λ stops.
                  checked-Settled now target (ex.stop w s) (remove_workload ex w)
                    λ e. remove-Settled ex now target w law (ex.stop w s).1 down)
                λ rest e. other (observed now now target) target down rest

  k8s_remove-Settled :
      (s : W) → state_eq j.target_state running ≡ false → Here (remove_k8s ex j s).0
  k8s_remove-Settled s down =
      let target = j.target_state in
      let w = j.workload in
      let seen = ex.get_state w s in
      choice (one_of target (exited ∷ inactive ∷ unknown ∷ [])) (remove_workload ex w s)
        (answered seen) (λ stops. remove-Settled ex j.current_state target w law s down)
        λ rest.
          answered-Settled j.current_state target seen
            λ t e. other (observed t j.current_state target) target down (ground arith)

  k8s_run-Settled :
      (s : W)
      → state_eq j.target_state running ≡ true
      → Here (checked (ex.run j.workload s) (remove_k8s ex j)).0
  k8s_run-Settled s up =
      let now = j.current_state in
      let target = j.target_state in
      let w = j.workload in
      let s1 = (ex.run w s).1 in
      let seen = ex.get_state w s1 in
      checked-Settled now target (ex.run w s) (remove_k8s ex j) λ ran.
        choice (one_of target (exited ∷ inactive ∷ unknown ∷ [])) (remove_workload ex w s1)
          (answered seen) (λ stops. elim (running_kept target up stops) [ ])
          λ rest. answered-Settled now target seen λ t e.
            started now target t up (Shown-told (λ u. u ≡ running) _ _ t (law.run_starts s) ran e)

  k8s_sync-Settled : (s : W) → Here (k8s_sync ex j s).0
  unfolding k8s_sync
  k8s_sync-Settled s =
      let now = j.current_state in
      let target = j.target_state in
      let idle = done now s in
      let up = checked (ex.run j.workload s) (remove_k8s ex j) in
      let down = remove_k8s ex j s in
      choice (state_eq now target) idle (if state_eq target running then up else down)
        (λ same e. unmoved now target same)
        λ moved. choice (state_eq target running) up down (k8s_run-Settled s) (k8s_remove-Settled s)

  reported-Settled :
      (kind : WorkloadKind) (s s' : W) (r : Report) → sync ex kind j s ≡ some (r, s') → Here r
  unfolding sync
  reported-Settled pod s s' r e = subst Here (some_report e) (pod_sync-Settled s)
  reported-Settled k8s s s' r e = subst Here (some_report e) (k8s_sync-Settled s)
  reported-Settled ansible s s' r e = cc

-- Where the executor keeps its promises for the job's workload, a reconciliation of a pod or of a
-- deployment that reports a state and no error leaves a job that is not reconciled again: with that
-- state, the job is not due.
pub sync_settles :
    {W : Type 0} (ex : Executor W) (j : Job) (kind : WorkloadKind) (s s' : W) (r : Report) (now : ℕ)
    → IsFaithful ex j.workload
    → sync ex kind j s ≡ some (r, s')
    → r.error ≡ false
    → should_reconcile (set_current_state now r.value j) ≡ false
unfolding sync should_reconcile
sync_settles ex j kind s s' r now law e ok =
    let h = reported-Settled ex j law kind s s' r e ok in
    let sees = set_current_state-Sees now r.value j in
    ap₂ is_due sees.current_state sees.target_state ∙ h
