-- ===== src/Scheduler/Resources/Path.antt =====
-- The path that is read for a job's resources.
use flotta_device_worker_ng.Base.{
  ℕ, suc, ◌≡◌, refl, ap, ◌∙◌, true, List, [], ◌∷◌, ◌++◌, some, ◌==◌, Bool-cases, inl, inr, arith,
  leb, length, Bytes, codes,
}
use flotta_device_worker_ng.Entity.Job.{Job, id}
use flotta_device_worker_ng.Scheduler.Resources.{
  ResourceManager, replace, onto_first, split, join, strip_mount, read, read_at, with_cgroup,
  get_job_resources,
}

join-onto_first :
    (sep c : ℕ) (parts : List Bytes) → join sep (onto_first c parts) ≡ c ∷ join sep parts
unfolding join
join-onto_first sep c [] = refl
join-onto_first sep c (p ∷ []) = refl
join-onto_first sep c (p ∷ (q ∷ parts)) = refl

join_first :
    (sep c : ℕ) (parts : List Bytes)
    → join sep ([] ∷ onto_first c parts) ≡ sep ∷ join sep (onto_first c parts)
unfolding join
join_first sep c [] = refl
join_first sep c (p ∷ parts) = refl

join-nil : (sep : ℕ) (s : Bytes) → join sep ([] ∷ split sep s) ≡ sep ∷ join sep (split sep s)
unfolding join split
join-nil sep [] = refl
join-nil sep (c ∷ s) = elim (Bool-cases (c == sep)) [
  | inl e ↦ rw e refl
  | inr e ↦ rw e (join_first sep c (split sep s))
]

join-split : (sep : ℕ) (s : Bytes) → join sep (split sep s) ≡ s
unfolding split join
join-split sep [] = refl
join-split sep (c ∷ s) = elim (Bool-cases (c == sep)) [
  | inl e ↦
      rw e (
        join-nil sep s ∙ ap (λ t. sep ∷ t) (join-split sep s) ∙ ap (λ d. d ∷ s) (ground (arith, e)))
  | inr e ↦ rw e (join-onto_first sep c (split sep s) ∙ ap (λ t. c ∷ t) (join-split sep s))
]

-- A path below the mount point of the cgroups loses the mount point, and nothing else.
pub strip_mount_lem : (p : Bytes) → strip_mount (codes "/sys/fs/cgroup/" ++ p) ≡ some (b'/' ∷ p)
unfolding strip_mount split
strip_mount_lem p =
    let n = length (split b'/' p) in
    let long : leb 4 (suc (suc (suc (suc n)))) ≡ true = ground arith in
    rw long (ap (λ t. some (b'/' ∷ t)) (join-split b'/' p))

-- Where the resource manager finds a path below the mount point of the cgroups for a job's identifier,
-- with `_` for each `-` in it, the resources that are read are those at the path behind the mount
-- point, and a file `cpu.max` that is missing is no error.
pub get_job_resources_reads :
    {W : Type 0} (rm : ResourceManager W) (j : Job) (s s1 : W) (p : Bytes)
    → rm.get_cgroup (replace b'-' b'_' (id j)) s ≡ (some (codes "/sys/fs/cgroup/" ++ p), s1)
    → get_job_resources rm j s ≡ (
      read (rm.get_resources (b'/' ∷ p) s1).0 (rm.get_resources (b'/' ∷ p) s1).1,
      (rm.get_resources (b'/' ∷ p) s1).2,
    )
unfolding get_job_resources
get_job_resources_reads rm j s s1 p e =
    ap (with_cgroup rm) e ∙ ap (λ o. read_at rm o s1) (strip_mount_lem p)
