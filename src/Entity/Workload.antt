-- ===== src/Entity/Workload.antt =====
-- internal/entity/workload.go: the interface `Workload` as a record of what its methods return, and
-- the pod workload that implements it.
use flotta_device_worker_ng.Base.{
  ℕ, Bool, true, false, List, [], ◌∷◌, ◌++◌, Option, Bytes, codes, take,
}

pub data WorkloadKind : Type 0 where
  pod ansible k8s : WorkloadKind

-- The text of a kind, and `==` on kinds.
abbrev pub kind_string : WorkloadKind → Bytes
kind_string pod = codes "pod"
kind_string ansible = codes "ansible"
kind_string k8s = codes "k8s"

abbrev pub is_pod : WorkloadKind → Bool
is_pod pod = true
is_pod _ = false

abbrev pub is_k8s : WorkloadKind → Bool
is_k8s k8s = true
is_k8s _ = false

-- `cpu` is the bit pattern of the `int64`, so that the conversions to `uint64` and back keep it.
pub record WorkloadCondition : Type 0 where
  pub name : Bytes
  pub cpu : Option ℕ

pub record WorkloadProfile : Type 0 where
  pub name : Bytes
  pub conditions : List WorkloadCondition

-- The maps of strings are lists of pairs, in the order in which Go ranges over them.
pub record PodWorkload : Type 0 where
  pub name : Bytes
  pub kind : WorkloadKind
  pub namespace : Bytes
  pub cron_spec : Bytes
  pub rootless : Bool
  pub annotations : List (Bytes × Bytes)
  pub secrets : List (Bytes × Bytes)
  pub configmaps : List Bytes
  pub image_registry_auth : Bytes
  pub labels : List (Bytes × Bytes)
  pub workload_profiles : List WorkloadProfile
  pub specification : Bytes

-- `name` is the field of the `PodWorkload` behind the interface. `id` and `hash` are what the methods
-- return, which compute them from the workload's maps each time: they are constant until a backend
-- changes a map, and they are taken to be the same at each call in between.
pub record Workload : Type 0 where
  pub name : Bytes
  pub id : Bytes
  pub kind : WorkloadKind
  pub hash : Bytes
  pub cron : Bytes
  pub is_rootless : Bool
  pub profiles : List WorkloadProfile

abbrev pub concat : List Bytes → Bytes
concat [] = []
concat (x ∷ xs) = x ++ concat xs

abbrev pub concat_pairs : List (Bytes × Bytes) → Bytes
concat_pairs [] = []
concat_pairs ((k, v) ∷ m) = k ++ (v ++ concat_pairs m)

abbrev pub bool_string : Bool → Bytes
bool_string true = codes "true"
bool_string false = codes "false"

-- What is written for the hash one after another, by the format `%+v` of profiles.
abbrev pub parts : (List WorkloadProfile → Bytes) → PodWorkload → List Bytes
parts show_profiles p =
    p.name
    ∷ p.namespace
    ∷ kind_string p.kind
    ∷ concat_pairs p.annotations
    ∷ concat_pairs p.secrets
    ∷ concat_pairs p.labels
    ∷ concat p.configmaps
    ∷ p.image_registry_auth
    ∷ p.specification
    ∷ show_profiles p.workload_profiles
    ∷ bool_string p.rootless
    ∷ p.cron_spec
    ∷ []

-- `sum` is SHA-256 of a text, in hexadecimal, and `show_profiles` the format `%+v` of profiles.
module _ (sum : Bytes → Bytes) (show_profiles : List WorkloadProfile → Bytes) where
  unfoldable pub hash : PodWorkload → Bytes
  hash p = sum (concat (parts show_profiles p))

  unfoldable pub workload_id : PodWorkload → Bytes
  workload_id p = p.name ++ (codes "-" ++ take 12 (hash p))

  -- A pod workload as a value of the interface.
  unfoldable pub to_workload : PodWorkload → Workload
  to_workload p = record {
    name = p.name;
    id = workload_id p;
    kind = p.kind;
    hash = hash p;
    cron = p.cron_spec;
    is_rootless = p.rootless;
    profiles = p.workload_profiles;
  }
