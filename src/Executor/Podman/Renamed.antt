-- ===== src/Executor/Podman/Renamed.antt =====
-- A workload with labels is another one once it has been run.
use flotta_device_worker_ng.Base.{
  ℕ, ◌+◌, ◌≡◌, ◌≢◌, refl, sym, ap, ◌∙◌, List, [], ◌∷◌, ◌++◌, none, some, Bytes, str_eq, insert,
  lookup, length, length-append, arith, Bool-cases, inl, inr,
}
use flotta_device_worker_ng.Entity.State
use flotta_device_worker_ng.Entity.Workload.{
  WorkloadProfile, PodWorkload, concat, concat_pairs, parts, hash, workload_id,
}
use flotta_device_worker_ng.Executor.Podman.{
  Podman, done, our_label, with_label, labelled, list, run, get_state,
}
use flotta_device_worker_ng.Executor.Podman.Names.{IsPlaying, state_running, run_with-Runs}

-- The lengths of texts, added up.
abbrev total : List Bytes → ℕ
total [] = 0
total (x ∷ xs) = length x + total xs

length-concat : (xs : List Bytes) → length (concat xs) ≡ total xs
length-concat [] = refl
length-concat (x ∷ xs) = length-append x (concat xs) ∙ ap (λ n. length x + n) (length-concat xs)

length-concat_pairs-insert :
    (k v : Bytes) (m : List (Bytes × Bytes))
    → lookup k m ≡ none
    → length (concat_pairs (insert k v m)) ≡ length (concat_pairs m) + (length k + length v)
unfolding lookup insert
length-concat_pairs-insert k v [] e =
    omega (arith, length-append {0} k (v ++ []), length-append {0} v [])
length-concat_pairs-insert k v ((j, w) ∷ m) e = elim (Bool-cases (str_eq j k)) [
  | inl h ↦ cc (h, e)
  | inr h ↦
      let ih = length-concat_pairs-insert k v m (ground (arith, h, e)) in
      rw h (
        omega (
          arith,
          ih,
          length-append {0} j (w ++ concat_pairs (insert k v m)),
          length-append {0} w (concat_pairs (insert k v m)),
          length-append {0} j (w ++ concat_pairs m),
          length-append {0} w (concat_pairs m),
        ))
]

with_label-insert :
    (h : Bytes) (ls : List (Bytes × Bytes)) → ls ≢ [] → with_label h ls ≡ insert our_label h ls
with_label-insert h [] e = absurd (e refl)
with_label-insert h (l ∷ ls) e = refl

module _ (sum : Bytes → Bytes) (show_profiles : List WorkloadProfile → Bytes)
    (device_id : Bytes) where
  -- The text that is hashed, before it is summed.
  abbrev pub text : PodWorkload → Bytes
  text p = hash (λ s. s) show_profiles p

  labelled-text :
      (p : PodWorkload)
      → p.labels ≢ []
      → lookup our_label p.labels ≡ none
      → text (labelled sum show_profiles device_id p) ≢ text p
  unfolding hash labelled
  labelled-text p n e same =
      let h = hash sum show_profiles p in
      let grown : length (concat_pairs (with_label h p.labels))
          ≡ length (concat_pairs p.labels) + (length our_label + length h) =
        ap (λ ls. length (concat_pairs ls)) (with_label-insert h p.labels n)
        ∙ length-concat_pairs-insert our_label h p.labels e in
      let q = labelled sum show_profiles device_id p in
      let sizes =
        sym (length-concat (parts show_profiles q))
        ∙ ap length same
        ∙ length-concat (parts show_profiles p) in
      omega (arith, grown, sizes)

  -- A workload with labels, none of them the one that marks workloads as ours, that is run without an
  -- error, by a podman that lists what has been started, is running under the identifier that it had;
  -- but its labels have the mark more, and the text of which its hash, and so its identifier, is made
  -- is another one than before.
  pub run_renames :
      {W : Type 0} (podman : Podman W) (p p' : PodWorkload) (s s' : W)
      → IsPlaying podman
      → p.labels ≢ []
      → lookup our_label p.labels ≡ none
      → run sum show_profiles device_id podman p s ≡ (done, p', s')
      → ((get_state sum show_profiles device_id podman p s').0 ≡ some State.running)
        × (p'.labels ≡ insert our_label (hash sum show_profiles p) p.labels)
        × (text p' ≢ text p)
  unfolding run get_state list labelled
  run_renames podman p p' s s' l n e r =
      let (same, runs) =
        run_with-Runs sum show_profiles device_id podman p p' (podman.unmarshal p.specification) s
          s' l r in
      (
        state_running (workload_id sum show_profiles p) (podman.list s') runs,
        ap (λ (q : PodWorkload). q.labels) same
            ∙ with_label-insert (hash sum show_profiles p) p.labels n,
        λ t. labelled-text p n e (sym (ap text same) ∙ t),
      )
