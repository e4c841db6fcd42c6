-- ===== src/Scheduler/Evaluate/Least.antt =====
-- Which CPU the evaluation of a job chooses.
use flotta_device_worker_ng.Base.{
  ℕ, ◌+◌, ◌≤◌, ◌≡◌, refl, sym, ap, ◌∙◌, subst, inl, inr, Bool, true, false, ◌||◌, List, [], ◌∷◌,
  Option, none, some, leb, Bool-cases, arith,
}
use flotta_device_worker_ng.Entity.Workload.{WorkloadProfile}
use flotta_device_worker_ng.Entity.Job.{CpuResource}
use flotta_device_worker_ng.Profile.Results.{ProfileEvaluationResult}
use flotta_device_worker_ng.Scheduler.Evaluate.{
  Entry, ResultsMap, Choice, choose, counted, total, initial, results_map, evaluate,
}
use flotta_device_worker_ng.Scheduler.Evaluate.Offers.{step, OffersIn, offered}

-- An entry that is active and has a CPU has no less than `n`.
abbrev pub Least : ℕ → Bool → Option CpuResource → Type 0
Least n true (some r) = n ≤ r.value1
Least n active resource = Unit {0}

abbrev pub LeastOf : ℕ → List Entry → Type 0
LeastOf n [] = Unit {0}
LeastOf n (e ∷ es) = Least n e.1.active e.1.resource × LeastOf n es

abbrev pub LeastIn : ℕ → ResultsMap → Type 0
LeastIn n [] = Unit {0}
LeastIn n ((name, es) ∷ m) = LeastOf n es × LeastIn n m

-- A resource that is chosen has the CPU that the loop keeps.
abbrev Keeps : ℕ → Option CpuResource → Type 0
Keeps n none = Unit {0}
Keeps n (some r) = r.value1 ≡ n

Least-≤ : (n k : ℕ) (b : Bool) (o : Option CpuResource) → k ≤ n → Least n b o → Least k b o
Least-≤ n k true (some r) p h = omega arith
Least-≤ n k true none p h = tt
Least-≤ n k false o p h = tt

step_lem :
    (b : Bool) (o : Option CpuResource) (ch : Choice)
    → let ch' = step b o ch in Least ch'.min_cpu b o × (ch'.min_cpu ≤ ch.min_cpu)
step_lem true (some r) ch = elim (Bool-cases (leb r.value1 ch.min_cpu)) [
  | inl e ↦ rw e (ground arith)
  | inr e ↦ rw e (ground arith)
]
step_lem true none ch = (tt, omega arith)
step_lem false o ch = (tt, omega arith)

step-Keeps :
    (b : Bool) (o : Option CpuResource) (ch : Choice)
    → Keeps ch.min_cpu ch.resource
    → let ch' = step b o ch in Keeps ch'.min_cpu ch'.resource
step-Keeps true (some r) ch h = elim (Bool-cases (leb r.value1 ch.min_cpu)) [
  | inl e ↦ rw e refl
  | inr e ↦ rw e h
]
step-Keeps true none ch h = h
step-Keeps false o ch h = h

choose_lem :
    (es : List Entry) (found : Bool) (ch : Choice)
    → let ch' = (choose es found ch).1 in LeastOf ch'.min_cpu es × (ch'.min_cpu ≤ ch.min_cpu)
unfolding choose
choose_lem [] found ch = (tt, omega arith)
choose_lem (e ∷ es) found ch =
    let ch1 = step e.1.active e.1.resource ch in
    let here = step_lem e.1.active e.1.resource ch in
    let rest = choose_lem es (e.1.active || found) ch1 in
    let n = (choose es (e.1.active || found) ch1).1.min_cpu in
    let p = rest.1 in
    let q = here.1 in
    ((Least-≤ ch1.min_cpu n e.1.active e.1.resource p here.0, rest.0), omega arith)

choose-Keeps :
    (es : List Entry) (found : Bool) (ch : Choice)
    → Keeps ch.min_cpu ch.resource
    → let ch' = (choose es found ch).1 in Keeps ch'.min_cpu ch'.resource
unfolding choose
choose-Keeps [] found ch h = h
choose-Keeps (e ∷ es) found ch h =
    choose-Keeps es (e.1.active || found) (step e.1.active e.1.resource ch)
      (step-Keeps e.1.active e.1.resource ch h)

LeastOf-≤ : (n k : ℕ) (es : List Entry) → k ≤ n → LeastOf n es → LeastOf k es
LeastOf-≤ n k [] p h = tt
LeastOf-≤ n k (e ∷ es) p h = (Least-≤ n k e.1.active e.1.resource p h.0, LeastOf-≤ n k es p h.1)

total_lem :
    (m : ResultsMap) (sum : ℕ) (ch : Choice)
    → let ch' = (total m sum ch).1 in LeastIn ch'.min_cpu m × (ch'.min_cpu ≤ ch.min_cpu)
unfolding total
total_lem [] sum ch = (tt, omega arith)
total_lem ((name, es) ∷ m) sum ch =
    let c = choose es false ch in
    let here = choose_lem es false ch in
    let rest = total_lem m (counted c.0 sum) c.1 in
    let p = rest.1 in
    let q = here.1 in
    let n = (total m (counted c.0 sum) c.1).1.min_cpu in
    ((LeastOf-≤ c.1.min_cpu n es p here.0, rest.0), omega arith)

total-Keeps :
    (m : ResultsMap) (sum : ℕ) (ch : Choice)
    → Keeps ch.min_cpu ch.resource
    → let ch' = (total m sum ch).1 in Keeps ch'.min_cpu ch'.resource
unfolding total
total-Keeps [] sum ch h = h
total-Keeps ((name, es) ∷ m) sum ch h =
    let c = choose es false ch in total-Keeps m (counted c.0 sum) c.1 (choose-Keeps es false ch h)

abbrev quota_or : ℕ → Option CpuResource → ℕ
quota_or n none = n
quota_or n (some r) = r.value1

LeastIn-kept :
    (n : ℕ) (o : Option CpuResource) (m : ResultsMap) (r : CpuResource)
    → Keeps n o
    → o ≡ some r
    → LeastIn n m
    → LeastIn r.value1 m
LeastIn-kept n none m r k e h = cc
LeastIn-kept n (some x) m r k e h =
    let same : n ≡ r.value1 = sym k ∙ ap (quota_or n) e in subst (λ i. LeastIn i m) same h

-- What holds of a choice that is left without a resource.
abbrev Missed : Option CpuResource → ℕ → ℕ → Type 0 → Type 0
Missed o n k A = (o ≡ none) × (k ≡ n) × A

step-Missed :
    (b : Bool) (o : Option CpuResource) (ch : Choice)
    → (step b o ch).resource ≡ none
    → Missed ch.resource ch.min_cpu (step b o ch).min_cpu (Least (ch.min_cpu + 1) b o)
step-Missed true (some r) ch = elim (Bool-cases (leb r.value1 ch.min_cpu)) [
  | inl f ↦ rw f λ e. cc e
  | inr f ↦ rw f λ e. (e, refl, ground (arith, f))
]
step-Missed true none ch = λ e. (e, refl, tt)
step-Missed false o ch = λ e. (e, refl, tt)

choose-Missed :
    (es : List Entry) (found : Bool) (ch : Choice)
    → (choose es found ch).1.resource ≡ none
    → Missed ch.resource ch.min_cpu (choose es found ch).1.min_cpu (LeastOf (ch.min_cpu + 1) es)
unfolding choose
choose-Missed [] found ch e = (e, refl, tt)
choose-Missed (x ∷ es) found ch e =
    let ch1 = step x.1.active x.1.resource ch in
    let (f, same, rest) = choose-Missed es (x.1.active || found) ch1 e in
    let (g, same1, here) = step-Missed x.1.active x.1.resource ch f in
    (g, same ∙ same1, (here, subst (λ n. LeastOf (n + 1) es) same1 rest))

total-Missed :
    (m : ResultsMap) (sum : ℕ) (ch : Choice)
    → (total m sum ch).1.resource ≡ none
    → Missed ch.resource ch.min_cpu (total m sum ch).1.min_cpu (LeastIn (ch.min_cpu + 1) m)
unfolding total
total-Missed [] sum ch e = (e, refl, tt)
total-Missed ((name, es) ∷ m) sum ch e =
    let c = choose es false ch in
    let (f, same, rest) = total-Missed m (counted c.0 sum) c.1 e in
    let (g, same1, here) = choose-Missed es false ch f in
    (g, same ∙ same1, (here, subst (λ n. LeastIn (n + 1) m) same1 rest))

-- A choice over the entries of some profiles: none, where each CPU is more than the limit of 100000,
-- or a resource of an entry that is active, whose CPU is the least.
abbrev pub IsLeast : ResultsMap → Option CpuResource → Type 0
IsLeast m none = LeastIn 100001 m
IsLeast m (some r) = OffersIn r m × LeastIn r.value1 m

chosen :
    (m : ResultsMap) (o : Option CpuResource) → (total m 0 initial).1.resource ≡ o → IsLeast m o
chosen m none e = (total-Missed m 0 initial e).2
chosen m (some r) e =
    let ch = (total m 0 initial).1 in
    (
      offered m r e,
      LeastIn-kept ch.min_cpu ch.resource m r (total-Keeps m 0 initial tt) e
          (total_lem m 0 initial).0,
    )

-- The evaluation of a job with profiles, over results, chooses the resource of a condition that
-- holds, of one of its profiles, with the least CPU of all its conditions that hold; it chooses none
-- only if the CPU of each condition that holds is more than 100000.
pub evaluate-IsLeast :
    (p : WorkloadProfile) (ps : List WorkloadProfile) (r : ProfileEvaluationResult)
    (rs : List ProfileEvaluationResult)
    → IsLeast (results_map (p ∷ ps) (r ∷ rs)) (evaluate (p ∷ ps) (r ∷ rs)).resource
unfolding evaluate
evaluate-IsLeast p ps r rs = chosen (results_map (p ∷ ps) (r ∷ rs)) _ refl
