-- ===== src/Scheduler/Resources.antt =====
-- internal/scheduler/scheduler.go: `getJobResources`, over the interface of the resource manager of
-- common/interfaces.go, with the state of the system outside passed on.
pub mod Path
pub mod Reconcile
pub mod Branch
pub mod Settles
use flotta_device_worker_ng.Base.{
  ℕ, zero, suc, Bool, true, false, List, [], ◌∷◌, ◌++◌, Option, none, some, if◌then◌else◌, ◌==◌,
  leb, length, drop, map, Bytes,
}
use flotta_device_worker_ng.Entity.Job.{CpuResource, no_resource, Job, id}

-- The error of `GetResources`: none, `ErrCPUMaxFileNotFound`, or another one.
pub data ReadError : Type 0 where
  no_error cpu_max_file_not_found other_error : ReadError

-- A path of a cgroup is found by the text that its name has to contain; `none` is an error.
pub record ResourceManager (W : Type 0) : Type 0 where
  pub set : Bytes → CpuResource → W → Bool × W
  pub get_cgroup : Bytes → W → Option Bytes × W
  pub get_resources : Bytes → W → CpuResource × ReadError × W

-- `strings.ReplaceAll` of one byte by another.
abbrev pub replace : ℕ → ℕ → Bytes → Bytes
replace a b s = map (λ c. if c == a then b else c) s

-- `strings.Split` at one byte, which finds one part more than there are separators.
abbrev pub onto_first : ℕ → List Bytes → List Bytes
onto_first c [] = (c ∷ []) ∷ []
onto_first c (part ∷ parts) = (c ∷ part) ∷ parts

unfoldable pub split : ℕ → Bytes → List Bytes
split sep [] = [] ∷ []
split sep (c ∷ s) = let parts = split sep s in if c == sep then [] ∷ parts else onto_first c parts

-- `strings.Join` with one byte.
unfoldable pub join : ℕ → List Bytes → Bytes
join sep [] = []
join sep (part ∷ []) = part
join sep (part ∷ (q ∷ parts)) = part ++ sep ∷ join sep (q ∷ parts)

-- The path without its mount point; `none` is the panic of `parts[4:]` on fewer parts.
unfoldable pub strip_mount : Bytes → Option Bytes
strip_mount cgroup =
    let parts = split b'/' cgroup in
    if leb 4 (length parts) then some (b'/' ∷ join b'/' (drop 4 parts)) else none

pub data Outcome : Type 0 where
  got : CpuResource → Outcome
  failed panicked : Outcome

-- A file that is missing is no error.
abbrev pub read : CpuResource → ReadError → Outcome
read cpu no_error = got cpu
read cpu cpu_max_file_not_found = got cpu
read cpu other_error = failed

module _ {W : Type 0} (rm : ResourceManager W) where
  abbrev pub read_at : Option Bytes → W → Outcome × W
  read_at none s = (panicked, s)
  read_at (some cg) s = let (cpu, e, s1) = rm.get_resources cg s in (read cpu e, s1)

  abbrev pub with_cgroup : Option Bytes × W → Outcome × W
  with_cgroup (none, s) = (failed, s)
  with_cgroup (some cgroup, s) = read_at (strip_mount cgroup) s

  -- `getJobResources`. The path has a first byte, so that the test for an empty one fails.
  unfoldable pub get_job_resources : Job → W → Outcome × W
  get_job_resources j s = with_cgroup (rm.get_cgroup (replace b'-' b'_' (id j)) s)
