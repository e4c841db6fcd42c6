-- ===== src/Entity/Heartbeat.antt =====
-- internal/entity/heartbeat.go: what the device tells of itself.
use flotta_device_worker_ng.Base.{ℕ, List, Option, Bytes, codes}
use flotta_device_worker_ng.Entity.Hardware.{HardwareInfo}

-- The constants of `Status`, `HearbeatStatus` and `EventType`; another number is never used.
pub data Status : Type 0 where
  deploying running crashed stopped : Status

abbrev pub status_string : Status → Bytes
status_string deploying = codes "deploying"
status_string running = codes "running"
status_string crashed = codes "crashed"
status_string stopped = codes "stopped"

pub data HeartbeatStatus : Type 0 where
  up degraded : HeartbeatStatus

abbrev pub heartbeat_status_string : HeartbeatStatus → Bytes
heartbeat_status_string up = codes "up"
heartbeat_status_string degraded = codes "degraded"

pub data EventType : Type 0 where
  info warn : EventType

abbrev pub event_type_string : EventType → Bytes
event_type_string info = codes "info"
event_type_string warn = codes "warn"

pub record EventInfo : Type 0 where
  pub message : Bytes
  pub reason : Bytes
  pub type : EventType

pub record UpgradeStatus : Type 0 where
  pub current_commit_id : Bytes
  pub last_upgrade_status : Bytes
  pub last_upgrade_time : Bytes

-- An instant is a number of nanoseconds, and the zero time is 0.
pub record WorkloadStatus : Type 0 where
  pub last_data_upload : ℕ
  pub name : Bytes
  pub status : Status

-- A pointer that may be nil is an option.
pub record Heartbeat : Type 0 where
  pub events : List EventInfo
  pub hardware : Option HardwareInfo
  pub status : HeartbeatStatus
  pub upgrade : Option UpgradeStatus
  pub version : Bytes
  pub workloads : List WorkloadStatus
