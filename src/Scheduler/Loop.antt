-- ===== src/Scheduler/Loop.antt =====
-- internal/scheduler/scheduler.go: the loop of the execution branch of `run`. It ranges over the slice
-- that `ToList` returned, whose cells a removal in the loop moves. `answer` is what `GetState` returns
-- at each index of the loop, and `time` when it is called.
pub mod Order
use flotta_device_worker_ng.Base.{
  ℕ, zero, suc, ◌+◌, Bool, true, false, List, [], ◌∷◌, ◌++◌, Option, none, some, if◌then◌else◌,
  get_elem?, set, Bytes,
}
use flotta_device_worker_ng.Entity.State.{JobState}
use flotta_device_worker_ng.Entity.Job.{Job, id}
use flotta_device_worker_ng.Scheduler.Store
use flotta_device_worker_ng.Scheduler.Store.{Heap, Store}
use flotta_device_worker_ng.Scheduler.Visit.{Futures, Visit, visit}

-- The scheduler's jobs, with the futures of their reconciliations.
pub record Jobs : Type 0 where
  pub heap : Heap
  pub store : Store
  pub futures : Futures

-- What a visit of the job at an address leaves. The job is changed where it is, and leaves the store
-- if the visit removes it.
abbrev pub after : ℕ → Visit → Jobs → Jobs
after p v s = record {
  heap = set s.heap p v.job;
  store = if v.removed then Store.delete (set s.heap p v.job) (id v.job) s.store else s.store;
  futures = v.futures;
}

abbrev pub visit_job : ℕ → Option JobState → ℕ → Option Job → Jobs → Jobs
visit_job now answer p none s = s
visit_job now answer p (some j) s = after p (visit now answer j s.futures) s

abbrev pub visit_at : ℕ → Option JobState → Option ℕ → Jobs → Jobs
visit_at now answer none s = s
visit_at now answer (some p) s = visit_job now answer p (get_elem? s.heap p) s

abbrev pub listed : Option ℕ → List ℕ → List ℕ
listed none ps = ps
listed (some p) ps = p ∷ ps

module _ (time : ℕ → ℕ) (answer : ℕ → Option JobState) where
  -- `rounds` rounds from the index `i` on. The addresses visited come with the jobs.
  unfoldable pub sync_from : ℕ → ℕ → Jobs → Jobs × List ℕ
  sync_from zero i s = (s, [])
  sync_from (suc rounds) i s =
      let cell = get_elem? s.store.array i in
      let (s', visited) = sync_from rounds (i + 1) (visit_at (time i) (answer i) cell s) in
      (s', listed cell visited)

  unfoldable pub sync : Jobs → Jobs × List ℕ
  sync s = sync_from s.store.len 0 s
