-- ===== src/Executor/K8s/Selector.antt =====
-- Which pods the deployment of a workload selects.
use flotta_device_worker_ng.Base.{
  ℕ, zero, suc, ◌≤◌, ◌≡◌, refl, ap, ◌∙◌, sym, List, [], ◌∷◌, ◌++◌, Bytes, codes, take, length,
  arith,
}
use flotta_device_worker_ng.Entity.Workload.{WorkloadProfile, PodWorkload, workload_id}
use flotta_device_worker_ng.Executor.Podman.{Container}
use flotta_device_worker_ng.Executor.K8s.{selector, deployment_of}

take-append : (n : ℕ) (xs ys : Bytes) → n ≤ length xs → take n (xs ++ ys) ≡ take n xs
take-append zero xs ys h = refl
take-append (suc n) [] ys h = absurd (omega (arith, h))
take-append (suc n) (x ∷ xs) ys h = ap (λ t. x ∷ t) (take-append n xs ys (omega (arith, h)))

module _ (sum : Bytes → Bytes) (show_profiles : List WorkloadProfile → Bytes)
    (device_id : Bytes) where
  selector_name :
      (p : PodWorkload)
      → 12 ≤ length p.name
      → selector sum show_profiles device_id p ≡ (codes "id", take 12 p.name) ∷ []
  unfolding workload_id
  selector_name p h = ap (λ t. (codes "id", t) ∷ []) (take-append 12 p.name _ h)

  -- Two workloads whose names have at least twelve bytes, and the same first twelve, get deployments of one
  -- selector, whatever else differs in them: the labels that the one matches are those that the pods of
  -- the other have.
  pub deployments_share :
      (p q : PodWorkload) (cs ds : List Container)
      → 12 ≤ length p.name
      → 12 ≤ length q.name
      → take 12 p.name ≡ take 12 q.name
      → (deployment_of sum show_profiles device_id p cs).match_labels
        ≡ (deployment_of sum show_profiles device_id q ds).template_labels
  unfolding deployment_of
  deployments_share p q cs ds h k e =
      selector_name p h ∙ ap (λ t. (codes "id", t) ∷ []) e ∙ sym (selector_name q k)
