-- ===== src/Client/Hardware.antt =====
-- internal/client/http/mapper.go: the hardware, the enrolment, the registration and the heartbeat as
-- the operator's models. `none` is the panic at a nil pointer.
use flotta_device_worker_ng.Base.{List, [], ◌∷◌, Option, none, some, map, Bytes}
use mathlib.Core.Option
use flotta_device_worker_ng.Entity.Hardware
use flotta_device_worker_ng.Entity.Hardware.{
  Boot, Cpu, IoPerf, Gpu, HostDevice, Interface, Memory, Mount, SystemVendor,
}
use flotta_device_worker_ng.Entity.Heartbeat
use flotta_device_worker_ng.Entity.Heartbeat.{
  status_string, heartbeat_status_string, event_type_string,
}
use flotta_device_worker_ng.Client.Models
use flotta_device_worker_ng.Client.Models.{EnrolmentInfo, RegistrationInfo}

-- `entity.EnrolementInfo` and `entity.RegistrationInfo`.
pub record EnrolementInfo : Type 0 where
  pub hardware : Hardware.HardwareInfo
  pub model_name : Bytes
  pub target_namespace : Bytes

pub record Registration : Type 0 where
  pub certificate_request : Bytes
  pub hardware : Hardware.HardwareInfo

abbrev pub boot_model : Boot → Boot
boot_model b = record { current_boot_mode = b.current_boot_mode; pxe_interface = b.pxe_interface }

abbrev pub copy_flags : List Bytes → List Bytes
copy_flags [] = []
copy_flags (f ∷ fs) = f ∷ copy_flags fs

abbrev pub cpu_model : Cpu → Cpu
cpu_model c = record {
  architecture = c.architecture;
  count = c.count;
  flags = copy_flags c.flags;
  frequency = c.frequency;
  model_name = c.model_name;
}

abbrev pub disk_with : Hardware.Disk → Option IoPerf → Option Models.Disk
disk_with d none = none
disk_with d (some perf) = some (record {
  bootable = d.bootable;
  by_id = d.by_id;
  by_path = d.by_path;
  drive_type = d.drive_type;
  hctl = d.hctl;
  id = d.id;
  io_perf = record { sync_duration = perf.sync_duration };
  is_installation_media = d.is_installation_media;
  model = d.model;
  name = d.name;
  path = d.path;
  serial = d.serial;
  size_bytes = d.size_bytes;
  smart = d.smart;
  vendor = d.vendor;
  wwn = d.wwn;
})

abbrev pub cons_disk : Option Models.Disk → Option (List Models.Disk) → Option (List Models.Disk)
cons_disk (some d) (some ds) = some (d ∷ ds)
cons_disk d ds = none

-- A disk without `IoPerf` is dereferenced all the same.
unfoldable pub disk_models : List Hardware.Disk → Option (List Models.Disk)
disk_models [] = some []
disk_models (d ∷ ds) = cons_disk (disk_with d d.io_perf) (disk_models ds)

abbrev pub gpu_model : Gpu → Gpu
gpu_model g = record {
  address = g.address;
  device_id = g.device_id;
  name = g.name;
  vendor = g.vendor;
  vendor_id = g.vendor_id;
}

abbrev pub host_device_model : HostDevice → HostDevice
host_device_model h = record {
  device_type = h.device_type;
  gid = h.gid;
  uid = h.uid;
  major = h.major;
  minor = h.minor;
  path = h.path;
}

abbrev pub interface_model : Interface → Interface
interface_model i = record {
  biosdevname = i.biosdevname;
  client_id = i.client_id;
  flags = i.flags;
  has_carrier = i.has_carrier;
  ipv4_addresses = i.ipv4_addresses;
  ipv6_addresses = i.ipv6_addresses;
  mac_address = i.mac_address;
  mtu = i.mtu;
  name = i.name;
  product = i.product;
  speed_mbps = i.speed_mbps;
  vendor = i.vendor;
}

abbrev pub mount_model : Mount → Mount
mount_model m = record {
  device = m.device;
  directory = m.directory;
  options = m.options;
  type = m.type;
}

abbrev pub with_disks :
    Hardware.HardwareInfo → Option (List Models.Disk) → Option Models.HardwareInfo
with_disks e none = none
with_disks e (some disks) = some (record {
  boot = boot_model e.boot;
  cpu = cpu_model e.cpu;
  disks = disks;
  gpus = map gpu_model e.gpus;
  host_devices = map host_device_model e.host_devices;
  hostname = e.hostname;
  interfaces = map interface_model e.interfaces;
  memory = record {
    physical_bytes = e.memory.physical_bytes;
    usable_bytes = e.memory.usable_bytes;
  };
  mounts = map mount_model e.mounts;
  system_vendor = record {
    manufacturer = e.system_vendor.manufacturer;
    product_name = e.system_vendor.product_name;
    serial_number = e.system_vendor.serial_number;
    virtual = e.system_vendor.virtual;
  };
})

-- `hardwareEntity2Model`.
unfoldable pub hardware_entity2model : Hardware.HardwareInfo → Option Models.HardwareInfo
hardware_entity2model e = with_disks e (disk_models e.disks)

-- `enrolInfoEntity2Model`.
unfoldable pub enrol_info_entity2model : EnrolementInfo → Option EnrolmentInfo
enrol_info_entity2model e =
    Option.map (λ h. record { hardware = h; target_namespace = e.target_namespace })
      (hardware_entity2model e.hardware)

-- `registerInfoEntity2Model`.
unfoldable pub register_info_entity2model : Registration → Option RegistrationInfo
register_info_entity2model e =
    Option.map (λ h. record { certificate_request = e.certificate_request; hardware = h })
      (hardware_entity2model e.hardware)

abbrev pub status_model : Heartbeat.WorkloadStatus → Models.WorkloadStatus
status_model w = record {
  last_data_upload = w.last_data_upload;
  name = w.name;
  status = status_string w.status;
}

abbrev pub event_model : Heartbeat.EventInfo → Models.EventInfo
event_model e = record { message = e.message; reason = e.reason; type = event_type_string e.type }

abbrev pub heartbeat_with :
    Heartbeat.Heartbeat → Option Models.HardwareInfo → Option Models.Heartbeat
heartbeat_with e none = none
heartbeat_with e (some h) = some (record {
  events = map event_model e.events;
  hardware = h;
  status = heartbeat_status_string e.status;
  version = e.version;
  workloads = map status_model e.workloads;
})

abbrev pub hardware_of : Option Hardware.HardwareInfo → Option Models.HardwareInfo
hardware_of none = none
hardware_of (some h) = hardware_entity2model h

-- `heartbeatEntity2Model`. The model's upgrade status is empty.
unfoldable pub heartbeat_entity2model : Heartbeat.Heartbeat → Option Models.Heartbeat
heartbeat_entity2model e = heartbeat_with e (hardware_of e.hardware)
