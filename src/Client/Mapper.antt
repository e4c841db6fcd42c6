-- ===== src/Client/Mapper.antt =====
-- internal/client/http/mapper.go: the entity of a configuration that the operator sends.
pub mod Bounds
pub mod Nil
pub mod Profiles
mod Tests
use flotta_device_worker_ng.Base.{
  ℕ, ◌*◌, ◌%◌, ◌^◌, ◌≡◌, ap, ◌∙◌, Bool, false, List, [], ◌∷◌, Option, none, some, if◌then◌else◌,
  map, Bytes, codes, str_eq, insert,
}
use flotta_device_worker_ng.Entity.Workload
use flotta_device_worker_ng.Entity.Workload.{WorkloadKind, pod, k8s, PodWorkload}
use flotta_device_worker_ng.Entity.Configuration
use flotta_device_worker_ng.Entity.Configuration.{full_scope}
use flotta_device_worker_ng.Client.Models
use flotta_device_worker_ng.Client.Models.{ProfileCondition, Profile, HeartbeatConfiguration}

-- `time.Duration(int(seconds) * int(time.Second))` on bit patterns: the product of 64-bit integers.
unfoldable pub duration_of : ℕ → ℕ
duration_of seconds = seconds * 1000000000 % 2 ^ 64

-- A map is a list of its pairs, in the order in which their keys came first; the order in which it is
-- ranged over later is any.
unfoldable pub conditions_of : List ProfileCondition → List (Bytes × Bytes) → List (Bytes × Bytes)
conditions_of [] m = m
conditions_of (c ∷ cs) m = conditions_of cs (insert c.name c.expression m)

-- A profile of a name that came before replaces it.
unfoldable pub profiles_of :
    List Profile → List (Bytes × List (Bytes × Bytes)) → List (Bytes × List (Bytes × Bytes))
profiles_of [] m = m
profiles_of (p ∷ ps) m = profiles_of ps (insert p.name (conditions_of p.conditions []) m)

unfoldable pub kind_of : Bytes → WorkloadKind
kind_of kind = if str_eq kind (codes "k8s") then k8s else pod

abbrev pub auth_file : Option Bytes → Bytes
auth_file none = []
auth_file (some file) = file

abbrev pub condition_of : Models.WorkloadCondition → Workload.WorkloadCondition
condition_of c = record { name = c.name; cpu = c.cpu }

abbrev pub workload_profile_of : Models.WorkloadProfile → Workload.WorkloadProfile
workload_profile_of p = record { name = p.name; conditions = map condition_of p.conditions }

-- The secrets of a workload are not set.
unfoldable pub workload_of : Models.Workload → PodWorkload
workload_of w = record {
  name = w.name;
  kind = kind_of w.kind;
  namespace = w.namespace;
  cron_spec = w.cron;
  rootless = w.rootless;
  annotations = w.annotations;
  secrets = [];
  configmaps = w.configmaps;
  image_registry_auth = auth_file w.image_registries;
  labels = w.labels;
  workload_profiles = map workload_profile_of w.profiles;
  specification = w.specification;
}

abbrev pub configuration_of :
    Bool → HeartbeatConfiguration → List Profile → Configuration.DeviceConfiguration
configuration_of include h ps = record {
  heartbeat = record {
    hardware_profile = record { include = include; scope = full_scope };
    period = duration_of h.period_seconds;
  };
  mounts = [];
  os_information = record {
    automatically_upgrade = false;
    commit_id = [];
    hosted_objects_url = [];
  };
  profiles = profiles_of ps [];
}

abbrev pub with_profile :
    HeartbeatConfiguration → List Profile → Option Bool → Option Configuration.DeviceConfiguration
with_profile h ps none = none
with_profile h ps (some include) = some (configuration_of include h ps)

abbrev pub with_heartbeat :
    List Profile → Option HeartbeatConfiguration → Option Configuration.DeviceConfiguration
with_heartbeat ps none = none
with_heartbeat ps (some h) = with_profile h ps h.include

abbrev pub with_configuration :
    Option Models.DeviceConfiguration → Option Configuration.DeviceConfiguration
with_configuration none = none
with_configuration (some c) = with_heartbeat c.profiles c.heartbeat

-- The version of the message is not set.
abbrev pub message_of :
    Models.DeviceConfigurationMessage
    → Configuration.DeviceConfiguration
    → Configuration.DeviceConfigurationMessage
message_of m e = record {
  configuration = e;
  device_id = m.device_id;
  version = [];
  workloads = map workload_of m.workloads;
  workloads_monitoring_interval = duration_of m.workloads_monitoring_interval;
}

abbrev pub message_with :
    Models.DeviceConfigurationMessage
    → Option Configuration.DeviceConfiguration
    → Option Configuration.DeviceConfigurationMessage
message_with m none = none
message_with m (some e) = some (message_of m e)

-- `configurationModel2Entity`, of a message whose lists hold no nil pointer; `none` is the panic at the
-- pointer to the configuration, to its heartbeat or to its hardware profile.
unfoldable pub configuration_model2entity :
    Models.DeviceConfigurationMessage → Option Configuration.DeviceConfigurationMessage
configuration_model2entity m = message_with m (with_configuration m.configuration)

-- A message whose pointers are set has an entity.
pub configuration_model2entity-some :
    (m : Models.DeviceConfigurationMessage) {c : Models.DeviceConfiguration}
    {h : HeartbeatConfiguration} {include : Bool}
    → m.configuration ≡ some c
    → c.heartbeat ≡ some h
    → h.include ≡ some include
    → configuration_model2entity m ≡ some (message_of m (configuration_of include h c.profiles))
unfolding configuration_model2entity
configuration_model2entity-some m {c} {h} e f g =
    ap (λ o. message_with m (with_configuration o)) e
    ∙ ap (λ o. message_with m (with_heartbeat c.profiles o)) f
    ∙ ap (λ o. message_with m (with_profile h c.profiles o)) g
