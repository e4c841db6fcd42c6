-- ===== src/Configuration/Manager.antt =====
-- internal/configuration/manager.go: the manager that holds the device's configuration.
pub mod Order
pub mod Plain
mod Tests
use flotta_device_worker_ng.Base.{
  ℕ, Bool, true, false, List, [], ◌∷◌, ◌++◌, Option, none, some, if◌then◌else◌, map, Bytes, str_eq,
}
use flotta_device_worker_ng.Interpreter.Float.{Float32}
use flotta_device_worker_ng.Entity.State
use flotta_device_worker_ng.Entity.State.{JobState, ready, inactive, unknown}
use flotta_device_worker_ng.Entity.Workload.{PodWorkload}
use flotta_device_worker_ng.Entity.Hardware.{HardwareInfo}
use flotta_device_worker_ng.Entity.Heartbeat.{
  Status, running, crashed, stopped, up, WorkloadStatus, Heartbeat,
}
use flotta_device_worker_ng.Entity.Configuration.{
  full_scope, DeviceConfigurationMessage, Format, sorted, hash,
}
use flotta_device_worker_ng.Configuration.{DeviceProfiles, create_device_profiles}

-- The maps of the workloads in `conf` are shared with the jobs of the scheduler, and are what they were
-- when the configuration came: a label that a backend puts into one is not put into the other here.
pub record Manager : Type 0 where
  pub conf : DeviceConfigurationMessage
  pub hardware : HardwareInfo

-- `defaultConfiguration`: its heartbeat has a period of one second.
abbrev pub default_configuration : DeviceConfigurationMessage
default_configuration = record {
  configuration = record {
    heartbeat = record {
      hardware_profile = record { include = true; scope = full_scope };
      period = 1000000000;
    };
    mounts = [];
    os_information = record {
      automatically_upgrade = false;
      commit_id = [];
      hosted_objects_url = [];
    };
    profiles = [];
  };
  device_id = [];
  version = [];
  workloads = [];
  workloads_monitoring_interval = 0;
}

-- `New`, with what `GetHardwareInformation` returns.
abbrev pub new : HardwareInfo → Manager
new hardware = record { conf = default_configuration; hardware = hardware }

-- The payload of the message to the scheduler.
abbrev pub workload_option : List PodWorkload → Option (List PodWorkload)
workload_option [] = none
workload_option (w ∷ ws) = some (w ∷ ws)

-- The status of a workload by its job's state.
unfoldable pub status_of : JobState → Status
status_of State.running = running
status_of inactive = stopped
status_of unknown = stopped
status_of ready = stopped
status_of s = crashed

-- `statusMapper`, over the map in the order in which it is ranged over.
unfoldable pub status_mapper : List (Bytes × JobState) → List WorkloadStatus
status_mapper [] = []
status_mapper ((name, s) ∷ ws) =
    record { last_data_upload = 0; name = name; status = status_of s } ∷ status_mapper ws

abbrev pub read_status : Option (List (Bytes × JobState)) → List (Bytes × JobState)
read_status none = []
read_status (some ws) = ws

-- `Heartbeat`, with what the status reader returns, if there is one.
unfoldable pub heartbeat : Option (List (Bytes × JobState)) → Manager → Heartbeat
heartbeat reader c = record {
  events = [];
  hardware = some c.hardware;
  status = up;
  upgrade = none;
  version = [];
  workloads = status_mapper (read_status reader);
}

module _ (fl : Float32) (fmt : Format) where
  -- The messages that the manager sends, to `SchedulerCh` and to `StateManagerCh`.
  pub data Message : Type 0 where
    workload_configuration : Option (List PodWorkload) → Message
    profile_configuration : Option (DeviceProfiles fl) → Message

  -- What is made of the hashes of the new and of the old configuration.
  abbrev pub adopt :
      Bytes × DeviceConfigurationMessage
      → Bytes × DeviceConfigurationMessage
      → Manager
      → Manager × List Message
  adopt (new_hash, m) (old_hash, old) c =
      if str_eq new_hash old_hash then (record c { conf = old }, []) else (
        record c { conf = m },
        workload_configuration (workload_option m.workloads)
            ∷ (profile_configuration (create_device_profiles fl m.configuration.profiles) ∷ []),
      )

  -- `SetConfiguration`, with the messages that it sends one after another. It goes on behind a send
  -- once there is room in the channel. The profiles are made without an error, and `Hash` sorts the
  -- workloads of both configurations in place.
  unfoldable pub set_configuration : DeviceConfigurationMessage → Manager → Manager × List Message
  set_configuration new_conf c = adopt (hash fmt new_conf) (hash fmt c.conf) c
