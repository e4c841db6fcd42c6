-- ===== src/Scheduler/Resources/Settles.antt =====
-- A reconciliation of the resources without an error leaves nothing to reconcile.
use flotta_device_worker_ng.Base.{
  ◌≡◌, refl, ap, ap₂, ◌∙◌, sym, Bool, true, false, not, ◌∷◌, ◌++◌, Option, none, some,
  if◌then◌else◌, ◌||◌, ==-refl, lookup, insert, arith, Bytes, codes,
}
use flotta_device_worker_ng.Entity.State.{running, state_eq}
use flotta_device_worker_ng.Entity.Workload.{pod, is_k8s}
use flotta_device_worker_ng.Entity.Future.{new_future}
use flotta_device_worker_ng.Entity.Job.{
  CpuResource, Job, id, equal, no_resource, set_current_resources, set_target_resources,
}
use flotta_device_worker_ng.Scheduler.Resources.{
  ResourceManager, no_error, Outcome, got, replace, read, get_job_resources,
}
use flotta_device_worker_ng.Scheduler.Resources.Path.{strip_mount_lem, get_job_resources_reads}
use flotta_device_worker_ng.Scheduler.Resources.Reconcile.{
  Answer, done, set_answered, set_at, with_path, pod_resource_sync, resource_sync,
}
use flotta_device_worker_ng.Scheduler.Resources.Branch.{
  ResourceFutures, ResourceVisit, passed, measured, measure, resolved, dropped, polled,
  visit_resources,
}

-- A resource manager that finds the cgroup of a job at a path, and reads there what has been set.
pub record IsKeeping {W : Type 0} (rm : ResourceManager W) (j : Job) (p : Bytes) : Type 0 where
  pub finds :
      (s : W) → (rm.get_cgroup (replace b'-' b'_' (id j)) s).0 ≡ some (codes "/sys/fs/cgroup/" ++ p)
  pub reads :
      (s : W)
      → (rm.set (b'/' ∷ p) j.target_resources s).0 ≡ false
      → let s1 = (rm.set (b'/' ∷ p) j.target_resources s).1 in
        let s2 = (rm.get_cgroup (replace b'-' b'_' (id j)) s1).1 in
        ((rm.get_resources (b'/' ∷ p) s2).0 ≡ j.target_resources)
        × ((rm.get_resources (b'/' ∷ p) s2).1 ≡ no_error)

equal_refl : (r : CpuResource) → equal r r ≡ true
unfolding equal
equal_refl r = ground (arith, ==-refl r.value1, ==-refl r.value2)

if-quiet :
    (b : Bool) (v w : ResourceVisit)
    → v.started ≡ false
    → w.started ≡ false
    → (if b then v else w).started ≡ false
if-quiet true v w p q = p
if-quiet false v w p q = q

resolved-target : (o : Option Bool) (j : Job) → (resolved o j).target_resources ≡ j.target_resources
unfolding set_target_resources
resolved-target none j = refl
resolved-target (some true) j = refl
resolved-target (some false) j = refl

measured-quiet :
    (r : CpuResource) (j : Job) (fs : ResourceFutures)
    → j.target_resources ≡ r
    → (measured (got r) j fs).started ≡ false
unfolding set_current_resources
measured-quiet r j fs e =
    let k = set_current_resources r j in
    let new : ResourceVisit = record {
      job = k;
      futures = insert (id k) (new_future false) fs;
      started = true;
      broken = false;
    } in
    ap (λ b. (if b then passed k fs else new).started) (ap (equal r) e ∙ equal_refl r)

-- A job whose resources are those wanted is not reconciled.
visit_resources-quiet :
    (j : Job) (fs : ResourceFutures)
    → (visit_resources (got j.target_resources) j fs).started ≡ false
unfolding visit_resources measure
visit_resources-quiet j fs =
    let o = polled (lookup (id j) fs) in
    let k = resolved o j in
    let gs = dropped o (id j) fs in
    let skip =
      not (state_eq k.current_state running) || (k.marked_for_deletion || is_k8s k.workload.kind) in
    let r = j.target_resources in
    if-quiet (equal r no_resource) (passed j fs) (measure (got r) k gs) refl (
      if-quiet skip (passed k gs) (measured (got r) k gs) refl
        (measured-quiet r k gs (resolved-target o j)))

answered-done :
    {W : Type 0} (r : Bool × W) (s : W) → set_answered r ≡ (done, s) → (r.0 ≡ false) × (r.1 ≡ s)
answered-done (true, t) s e = cc e
answered-done {W} (false, t) s e = (refl, ap (λ (a : Answer × W). a.1) e)

module _ {W : Type 0} (rm : ResourceManager W) (j : Job) (p : Bytes) where
  with_path-set :
      (a : Option Bytes × W)
      → a.0 ≡ some (codes "/sys/fs/cgroup/" ++ p)
      → with_path rm j.target_resources a ≡ set_answered (rm.set (b'/' ∷ p) j.target_resources a.1)
  with_path-set a e =
      ap (λ o. with_path rm j.target_resources (o, a.1)) e
      ∙ ap (λ o. set_at rm j.target_resources o a.1) (strip_mount_lem p)

  -- Where a reconciliation of a pod's resources returns no error, over a resource manager that finds the
  -- job's cgroup at a path below the mount point and reads back there what has been set, the resources
  -- that `getJobResources` reads next are the target ones, and a visit with them starts no reconciliation.
  pub resource_sync_settles :
      (s s' : W) (fs : ResourceFutures)
      → IsKeeping rm j p
      → resource_sync rm pod j s ≡ (done, s')
      → ((get_job_resources rm j s').0 ≡ got j.target_resources)
        × ((visit_resources (get_job_resources rm j s').0 j fs).started ≡ false)
  unfolding resource_sync pod_resource_sync
  resource_sync_settles s s' fs k e =
      let name = replace b'-' b'_' (id j) in
      let s0 = (rm.get_cgroup name s).1 in
      let set = rm.set (b'/' ∷ p) j.target_resources s0 in
      let (kept, same) =
        answered-done set s' (sym (with_path-set (rm.get_cgroup name s) (k.finds s)) ∙ e) in
      let at = λ (t : W). rm.get_resources (b'/' ∷ p) (rm.get_cgroup name t).1 in
      let found = ap (λ o. (o, (rm.get_cgroup name s').1)) (k.finds s') in
      let read_back : (get_job_resources rm j s').0 ≡ got j.target_resources =
        ap (λ (t : Outcome × W). t.0)
          (get_job_resources_reads rm j s' (rm.get_cgroup name s').1 p found)
        ∙ ap (λ t. read (at t).0 (at t).1) (sym same)
        ∙ ap₂ read (k.reads s0 kept).0 (k.reads s0 kept).1 in
      (read_back, ap (λ o. (visit_resources o j fs).started) read_back ∙ visit_resources-quiet j fs)
