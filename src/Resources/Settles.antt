-- ===== src/Resources/Settles.antt =====
-- The resource manager as the scheduler uses it.
use flotta_device_worker_ng.Base.{
  ◌<◌, ◌^◌, ◌≡◌, ap, sym, ◌∙◌, false, ◌∷◌, ◌++◌, Option, some, Bytes, codes,
}
use flotta_device_worker_ng.Entity.Workload.{pod}
use flotta_device_worker_ng.Entity.Job.{CpuResource, Job, id}
use flotta_device_worker_ng.Scheduler.Resources.{
  ResourceManager, ReadError, got, replace, get_job_resources,
}
use flotta_device_worker_ng.Scheduler.Resources.Reconcile.{done, resource_sync}
use flotta_device_worker_ng.Scheduler.Resources.Branch.{ResourceFutures, visit_resources}
use flotta_device_worker_ng.Scheduler.Resources.Settles.{IsKeeping, resource_sync_settles}
use flotta_device_worker_ng.Resources.{Cgroups, set, get_resources}
use flotta_device_worker_ng.Resources.RoundTrip.{IsFile, get_resources-set}

-- `find` is `GetCGroup`, the walk over the directories by which a path is found for a pattern.
module _ {W : Type 0} (cgroups : Cgroups W) (find : Bytes → W → Option Bytes × W) where
  abbrev pub read_with : CpuResource × ReadError → W → CpuResource × ReadError × W
  read_with (r, e) s = (r, e, s)

  abbrev pub manager : ResourceManager W
  manager = record {
    set = set cgroups;
    get_cgroup = find;
    get_resources = λ path s. read_with (get_resources cgroups path s) s;
  }

  manager-IsKeeping :
      (j : Job) (p : Bytes)
      → IsFile cgroups
      → ((s : W) → find (replace b'-' b'_' (id j)) s ≡ (some (codes "/sys/fs/cgroup/" ++ p), s))
      → j.target_resources.value1 < 2 ^ 64
      → j.target_resources.value2 ≡ 100000
      → IsKeeping manager j p
  manager-IsKeeping j p file finds fits period = record {
    finds = λ s. ap (λ (t : Option Bytes × W). t.0) (finds s);
    reads = λ s w.
        let path = b'/' ∷ p in
        let r = j.target_resources in
        let a = set cgroups path r s in
        let read = get_resources-set cgroups path r s a.1 file fits (ap (λ e. (e, a.1)) w) in
        let stays = ap (λ (t : Option Bytes × W). t.1) (finds a.1) in
        let at = λ (t : W). get_resources cgroups path t in
        (
          ap (λ t. (at t).0) stays
              ∙ ap (λ (t : CpuResource × ReadError). t.0) read
              ∙ ap (λ n. record { value1 = r.value1; value2 = n }) (sym period),
          ap (λ t. (at t).1) stays ∙ ap (λ (t : CpuResource × ReadError). t.1) read,
        );
  }

  -- Where a reconciliation of a pod's resources returns no error, over the resource manager on a file
  -- system that keeps what is written, and on which the job's cgroup is found at one path, and the target
  -- has the period 100000, as each target has that `evaluate` makes, then the resources that
  -- `getJobResources` reads next are the target ones, and a visit with them starts no reconciliation.
  pub manager_settles :
      (j : Job) (p : Bytes) (s s' : W) (fs : ResourceFutures)
      → IsFile cgroups
      → ((s : W) → find (replace b'-' b'_' (id j)) s ≡ (some (codes "/sys/fs/cgroup/" ++ p), s))
      → j.target_resources.value1 < 2 ^ 64
      → j.target_resources.value2 ≡ 100000
      → resource_sync manager pod j s ≡ (done, s')
      → ((get_job_resources manager j s').0 ≡ got j.target_resources)
        × ((visit_resources (get_job_resources manager j s').0 j fs).started ≡ false)
  manager_settles j p s s' fs file finds fits period e =
      resource_sync_settles manager j p s s' fs (manager-IsKeeping j p file finds fits period) e
