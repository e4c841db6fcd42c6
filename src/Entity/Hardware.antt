-- ===== src/Entity/Hardware.antt =====
-- internal/entity/hardware.go: the description of the device's hardware. An `int64` and a `float64`,
-- which are only copied, are their bit patterns.
use flotta_device_worker_ng.Base.{ℕ, Bool, List, Option, Bytes}

pub record Boot : Type 0 where
  pub current_boot_mode : Bytes
  pub pxe_interface : Bytes

pub record Cpu : Type 0 where
  pub architecture : Bytes
  pub count : ℕ
  pub flags : List Bytes
  pub frequency : ℕ
  pub model_name : Bytes

pub record IoPerf : Type 0 where
  pub sync_duration : ℕ

-- The pointer to `IoPerf` is `none` where it is nil.
pub record Disk : Type 0 where
  pub bootable : Bool
  pub by_id : Bytes
  pub by_path : Bytes
  pub drive_type : Bytes
  pub hctl : Bytes
  pub id : Bytes
  pub io_perf : Option IoPerf
  pub is_installation_media : Bool
  pub model : Bytes
  pub name : Bytes
  pub path : Bytes
  pub serial : Bytes
  pub size_bytes : ℕ
  pub smart : Bytes
  pub vendor : Bytes
  pub wwn : Bytes

pub record Gpu : Type 0 where
  pub address : Bytes
  pub device_id : Bytes
  pub name : Bytes
  pub vendor : Bytes
  pub vendor_id : Bytes

pub record HostDevice : Type 0 where
  pub device_type : Bytes
  pub gid : ℕ
  pub major : ℕ
  pub minor : ℕ
  pub path : Bytes
  pub uid : ℕ

pub record Interface : Type 0 where
  pub biosdevname : Bytes
  pub client_id : Bytes
  pub flags : List Bytes
  pub has_carrier : Bool
  pub ipv4_addresses : List Bytes
  pub ipv6_addresses : List Bytes
  pub mac_address : Bytes
  pub mtu : ℕ
  pub name : Bytes
  pub product : Bytes
  pub speed_mbps : ℕ
  pub vendor : Bytes

pub record Memory : Type 0 where
  pub physical_bytes : ℕ
  pub usable_bytes : ℕ

-- `Mount` of internal/entity/configuration.go.
pub record Mount : Type 0 where
  pub device : Bytes
  pub directory : Bytes
  pub options : Bytes
  pub type : Bytes

pub record SystemVendor : Type 0 where
  pub manufacturer : Bytes
  pub product_name : Bytes
  pub serial_number : Bytes
  pub virtual : Bool

pub record HardwareInfo : Type 0 where
  pub boot : Boot
  pub cpu : Cpu
  pub disks : List Disk
  pub gpus : List Gpu
  pub host_devices : List HostDevice
  pub hostname : Bytes
  pub interfaces : List Interface
  pub memory : Memory
  pub mounts : List Mount
  pub system_vendor : SystemVendor
