-- ===== src/Client/Models.antt =====
-- The data that internal/client/http exchanges with the operator: of the generated models, the fields
-- that the code reads or writes. A pointer that may be nil is an option, but no pointer in a list is
-- nil. A model with the fields of an entity is the entity's record.
use flotta_device_worker_ng.Base.{ℕ, Bool, List, Option, Bytes}
use flotta_device_worker_ng.Entity.Hardware.{
  Boot, Cpu, IoPerf, Gpu, HostDevice, Interface, Memory, Mount, SystemVendor,
}

pub record Disk : Type 0 where
  pub bootable : Bool
  pub by_id : Bytes
  pub by_path : Bytes
  pub drive_type : Bytes
  pub hctl : Bytes
  pub id : Bytes
  pub io_perf : IoPerf
  pub is_installation_media : Bool
  pub model : Bytes
  pub name : Bytes
  pub path : Bytes
  pub serial : Bytes
  pub size_bytes : ℕ
  pub smart : Bytes
  pub vendor : Bytes
  pub wwn : Bytes

pub record HardwareInfo : Type 0 where
  pub boot : Boot
  pub cpu : Cpu
  pub disks : List Disk
  pub gpus : List Gpu
  pub host_devices : List HostDevice
  pub hostname : Bytes
  pub interfaces : List Interface
  pub memory : Memory
  pub mounts : List Mount
  pub system_vendor : SystemVendor

pub record EnrolmentInfo : Type 0 where
  pub hardware : HardwareInfo
  pub target_namespace : Bytes

pub record RegistrationInfo : Type 0 where
  pub certificate_request : Bytes
  pub hardware : HardwareInfo

pub record EventInfo : Type 0 where
  pub message : Bytes
  pub reason : Bytes
  pub type : Bytes

pub record WorkloadStatus : Type 0 where
  pub last_data_upload : ℕ
  pub name : Bytes
  pub status : Bytes

pub record Heartbeat : Type 0 where
  pub events : List EventInfo
  pub hardware : HardwareInfo
  pub status : Bytes
  pub version : Bytes
  pub workloads : List WorkloadStatus

-- `include` is the pointer to the hardware profile, of which only `Include` is read.
pub record HeartbeatConfiguration : Type 0 where
  pub include : Option Bool
  pub period_seconds : ℕ

pub record ProfileCondition : Type 0 where
  pub name : Bytes
  pub expression : Bytes

pub record Profile : Type 0 where
  pub name : Bytes
  pub conditions : List ProfileCondition

pub record DeviceConfiguration : Type 0 where
  pub heartbeat : Option HeartbeatConfiguration
  pub profiles : List Profile

pub record WorkloadCondition : Type 0 where
  pub name : Bytes
  pub cpu : Option ℕ

pub record WorkloadProfile : Type 0 where
  pub name : Bytes
  pub conditions : List WorkloadCondition

-- `image_registries` is the pointer to the registries, of which only `AuthFile` is read, and the `cpu` of
-- a condition the pointer to the resource.
pub record Workload : Type 0 where
  pub name : Bytes
  pub namespace : Bytes
  pub kind : Bytes
  pub annotations : List (Bytes × Bytes)
  pub configmaps : List Bytes
  pub labels : List (Bytes × Bytes)
  pub cron : Bytes
  pub rootless : Bool
  pub specification : Bytes
  pub image_registries : Option Bytes
  pub profiles : List WorkloadProfile

-- An `int64` is its bit pattern.
pub record DeviceConfigurationMessage : Type 0 where
  pub configuration : Option DeviceConfiguration
  pub device_id : Bytes
  pub workloads : List Workload
  pub workloads_monitoring_interval : ℕ
