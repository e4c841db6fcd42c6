-- ===== src/Resources/Tests.antt =====
-- The file `cpu.max` at concrete inputs.
use flotta_device_worker_ng.Base.{
  ◌≡◌, refl, true, false, Option, none, [], ◌∷◌, ◌++◌, some, Bytes, codes, str_eq, arith,
}
use flotta_device_worker_ng.Entity.State.{running}
use flotta_device_worker_ng.Entity.Workload.{pod}
use flotta_device_worker_ng.Entity.Job.{CpuResource, no_resource, Job}
use flotta_device_worker_ng.Scheduler.Resources.{
  no_error, got, split, join, strip_mount, get_job_resources,
}
use flotta_device_worker_ng.Scheduler.Resources.Reconcile.{pod_resource_sync, resource_sync}
use flotta_device_worker_ng.Scheduler.Resources.Branch.{visit_resources}
use flotta_device_worker_ng.Resources.{
  Cgroups, trim_start, trim_end, trim_space, quota_of, read_parts, read_lines, set, get_resources,
}
use flotta_device_worker_ng.Resources.Settles.{manager, manager_settles}
use flotta_device_worker_ng.Resources.RoundTrip.{cpu_max, IsFile, get_resources-set}

-- One file, whose text is the state outside.
abbrev one_file : Cgroups Bytes
one_file = record {
  loads = λ path s. true;
  mkdir = λ path s. (false, s);
  toggle = λ path s. (false, s);
  cpu_max = λ q p. cpu_max (record { value1 = q; value2 = p });
  write = λ path text s. (false, text ++ 10 ∷ []);
  read = λ path s. some s;
}

one_file-IsFile : IsFile one_file
one_file-IsFile = record {
  text = λ r. refl;
  loads_still = λ path text s. refl;
  reads = λ path text s e. refl;
}

-- Without a quota the whole of a CPU is read.
unlimited :
    get_resources one_file [] (codes "max 100000" ++ 10 ∷ [])
    ≡ (record { value1 = 100000; value2 = 100000 }, no_error)
unfolding get_resources read_lines read_parts quota_of trim_space trim_start trim_end split str_eq
unlimited = refl

abbrev quarter : CpuResource
quarter = record { value1 = 25000; value2 = 50000 }

get_resources-set_example :
    get_resources one_file (codes "/a") (cpu_max quarter ++ 10 ∷ [])
    ≡ (record { value1 = 25000; value2 = 100000 }, no_error)
unfolding set
get_resources-set_example =
    get_resources-set one_file (codes "/a") quarter [] (cpu_max quarter ++ 10 ∷ []) one_file-IsFile
      (omega arith) refl

abbrev job : Job
job = record {
  workload = record {
    name = codes "a";
    id = codes "a-b";
    kind = pod;
    hash = [];
    cron = [];
    is_rootless = true;
    profiles = [];
  };
  current_state = running;
  target_state = running;
  marked_for_deletion = false;
  cron = none;
  retry = none;
  hooks = [];
  current_resources = no_resource;
  target_resources = record { value1 = 50000; value2 = 100000 };
}

abbrev found : Bytes → Bytes → Option Bytes × Bytes
found name s = (some (codes "/sys/fs/cgroup/" ++ name), s)

abbrev written : Bytes
written = cpu_max job.target_resources ++ 10 ∷ []

manager_settles_example :
    ((get_job_resources (manager one_file found) job written).0 ≡ got job.target_resources)
    × ((visit_resources (get_job_resources (manager one_file found) job written).0 job []).started
        ≡ false)
unfolding resource_sync pod_resource_sync strip_mount split join set
manager_settles_example =
    manager_settles one_file found job (codes "a_b") [] written [] one_file-IsFile (λ s. refl)
      (omega arith) refl refl
