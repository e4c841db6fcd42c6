-- ===== src/Scheduler/Evaluate/Bounds.antt =====
-- What bounds the verdict of the evaluation of a job and the CPU it chooses.
use flotta_device_worker_ng.Base.{
  ℕ, suc, ◌+◌, ◌≤◌, ◌<◌, ◌≡◌, refl, ap, ◌∙◌, false, List, [], ◌∷◌, Option, none, some, Bool-cases,
  length, map, Bytes, str_eq, lookup, insert, arith, inl, inr,
}
use flotta_device_worker_ng.Entity.Workload.{WorkloadProfile}
use flotta_device_worker_ng.Profile.Results.{ProfileEvaluationResult}
use flotta_device_worker_ng.Scheduler.Evaluate.{
  Entry, ResultsMap, Choice, entry_of, populate, apply_conditions, apply_found, apply_results,
  choose, counted, total, initial, results_map, evaluate,
}

length-insert :
    {V : Type 0} (k : Bytes) (v : V) (m : List (Bytes × V)) → length (insert k v m) ≤ length m + 1
unfolding insert
length-insert k v [] = ground arith
length-insert k v ((j, w) ∷ m) = ground (arith, length-insert k v m)

length-insert_found :
    {V : Type 0} (k : Bytes) (v w : V) (m : List (Bytes × V))
    → lookup k m ≡ some w
    → length (insert k v m) ≡ length m
unfolding insert lookup
length-insert_found k v w [] h = cc
length-insert_found k v w ((j, u) ∷ m) h = elim (Bool-cases (str_eq j k)) [
  | inl e ↦ rw e refl
  | inr e ↦ let h' = rw e at h in rw e (ap (λ n. suc n) (length-insert_found k v w m h'))
]

length-populate :
    (ps : List WorkloadProfile) (m : ResultsMap) → length (populate m ps) ≤ length m + length ps
unfolding populate
length-populate [] m = omega arith
length-populate (p ∷ ps) m = omega (
  arith,
  length-populate ps (insert p.name (map entry_of p.conditions) m),
  length-insert p.name (map entry_of p.conditions) m,
)

length-apply_found :
    (r : ProfileEvaluationResult) (m : ResultsMap) (o : Option (List Entry))
    → lookup r.name m ≡ o
    → length (apply_found r m o) ≡ length m
length-apply_found r m none h = refl
length-apply_found r m (some es) h =
    length-insert_found r.name (apply_conditions r.conditions_results es) es m h

length-apply_results :
    (rs : List ProfileEvaluationResult) (m : ResultsMap) → length (apply_results rs m) ≡ length m
unfolding apply_results
length-apply_results [] m = refl
length-apply_results (r ∷ rs) m =
    length-apply_results rs (apply_found r m (lookup r.name m))
    ∙ length-apply_found r m (lookup r.name m) refl

total_bound : (m : ResultsMap) (sum : ℕ) (ch : Choice) → (total m sum ch).0 ≤ sum + length m
unfolding total
total_bound [] sum ch = omega arith
total_bound ((name, es) ∷ m) sum ch =
    let found = (choose es false ch).0 in
    let rest = total_bound m (counted found sum) (choose es false ch).1 in ground (arith, rest)

-- A job that has profiles is not active when there are results of more profiles than it has, whatever
-- its conditions evaluate to.
pub evaluate_outnumbered :
    (profiles : List WorkloadProfile) (results : List ProfileEvaluationResult)
    → 0 < length profiles
    → length profiles < length results
    → (evaluate profiles results).active ≡ false
unfolding evaluate results_map
evaluate_outnumbered [] results p q = ground arith
evaluate_outnumbered (w ∷ ws) [] p q = ground arith
evaluate_outnumbered (w ∷ ws) (r ∷ rs) p q =
    let m = populate [] (w ∷ ws) in
    let bound = total_bound (apply_results (r ∷ rs) m) 0 initial in
    let kept = length-apply_results (r ∷ rs) m in
    let few = length-populate (w ∷ ws) [] in ground (arith, bound, kept, few)
