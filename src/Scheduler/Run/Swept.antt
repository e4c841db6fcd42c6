-- ===== src/Scheduler/Run/Swept.antt =====
-- The branch of the resources changes no identifier of a job.
use flotta_device_worker_ng.Base.{
  ℕ, ◌+◌, ◌≡◌, refl, ap, ◌∙◌, Bool, true, false, not, List, [], ◌∷◌, Option, none, some,
  if◌then◌else◌, ◌||◌, get_elem?, lookup,
}
use flotta_device_worker_ng.Entity.State.{running, state_eq}
use flotta_device_worker_ng.Entity.Workload.{Workload, is_k8s}
use flotta_device_worker_ng.Entity.Job.{
  Job, id, equal, no_resource, set_current_resources, set_target_resources,
}
use flotta_device_worker_ng.Scheduler.Store.{Heap}
use flotta_device_worker_ng.Scheduler.Resources.{Outcome, got, failed, panicked}
use flotta_device_worker_ng.Scheduler.Resources.Branch.{
  ResourceFutures, ResourceVisit, passed, measured, measure, resolved, dropped, polled,
  visit_resources, visit_cell, unless_broken, sweep, Swept,
}
use flotta_device_worker_ng.Scheduler.Run.Invariant.{Renews, Renews-trans, set-Renews}

-- A visit to a job that keeps its workload.
abbrev Of : Job → ResourceVisit → Type 0
Of j v = v.job.workload ≡ j.workload

if-Of : (b : Bool) (j : Job) (v w : ResourceVisit) → Of j v → Of j w → Of j (if b then v else w)
if-Of true j v w p q = p
if-Of false j v w p q = q

measured-Of : (a : Outcome) (j : Job) (fs : ResourceFutures) → Of j (measured a j fs)
unfolding set_current_resources
measured-Of (got r) j fs =
    if-Of (equal r j.target_resources) j (passed (set_current_resources r j) fs) _ refl refl
measured-Of failed j fs = refl
measured-Of panicked j fs = refl

resolved-workload : (o : Option Bool) (j : Job) → (resolved o j).workload ≡ j.workload
unfolding set_target_resources
resolved-workload none j = refl
resolved-workload (some true) j = refl
resolved-workload (some false) j = refl

visit_resources-Of : (a : Outcome) (j : Job) (fs : ResourceFutures) → Of j (visit_resources a j fs)
unfolding visit_resources measure
visit_resources-Of a j fs =
    let o = polled (lookup (id j) fs) in
    let k = resolved o j in
    let gs = dropped o (id j) fs in
    let skip =
      not (state_eq k.current_state running) || (k.marked_for_deletion || is_k8s k.workload.kind) in
    if-Of (equal j.target_resources no_resource) j (passed j fs) (measure a k gs) refl (
      if-Of skip k (passed k gs) (measured a k gs) refl (measured-Of a k gs)
      ∙ resolved-workload o j)

visit_cell-Renews :
    (a : Outcome) (p : ℕ) (o : Option Job) (h : Heap) (fs : ResourceFutures)
    → get_elem? h p ≡ o
    → Renews h (visit_cell a p o h fs).0
visit_cell-Renews a p none h fs e = record { size = refl; same = λ q. refl }
visit_cell-Renews a p (some j) h fs e =
    set-Renews h p j (visit_resources a j fs).job e
      (ap (λ (w : Workload). w.id) (visit_resources-Of a j fs))

unless_broken-Renews :
    (b : Bool) (h : Heap) (s t : Swept)
    → Renews h s.0
    → Renews s.0 t.0
    → Renews h (unless_broken b s t).0
unless_broken-Renews true h s t r q = r
unless_broken-Renews false h s t r q = Renews-trans r q

pub sweep-Renews :
    (answer : ℕ → Outcome) (i : ℕ) (ps : List ℕ) (h : Heap) (fs : ResourceFutures)
    → Renews h (sweep answer i ps h fs).0
unfolding sweep
sweep-Renews answer i [] h fs = record { size = refl; same = λ q. refl }
sweep-Renews answer i (p ∷ ps) h fs =
    let s = visit_cell (answer i) p (get_elem? h p) h fs in
    unless_broken-Renews s.2 h s (sweep answer (i + 1) ps s.0 s.1)
      (visit_cell-Renews (answer i) p (get_elem? h p) h fs refl)
      (sweep-Renews answer (i + 1) ps s.0 s.1)
