-- ===== src/Configuration/Manager/Plain.antt =====
-- A workload, formats and hardware, for the tests.
use flotta_device_worker_ng.Base.{false, [], Bytes}
use flotta_device_worker_ng.Entity.Workload.{PodWorkload, pod}
use flotta_device_worker_ng.Entity.Hardware.{HardwareInfo}
use flotta_device_worker_ng.Entity.Configuration.{Format}

abbrev pub workload : Bytes → PodWorkload
workload name = record {
  name = name;
  kind = pod;
  namespace = [];
  cron_spec = [];
  rootless = false;
  annotations = [];
  secrets = [];
  configmaps = [];
  image_registry_auth = [];
  labels = [];
  workload_profiles = [];
  specification = [];
}

-- Formats that tell configurations apart by their workloads' names.
abbrev pub names : Format
names = record {
  sum = λ s. s;
  duration = λ d. [];
  configuration = λ c. [];
  workload = λ (w : PodWorkload). w.name;
  id = λ (w : PodWorkload). w.name;
}

abbrev pub no_hardware : HardwareInfo
no_hardware = record {
  boot = record { current_boot_mode = []; pxe_interface = [] };
  cpu = record { architecture = []; count = 0; flags = []; frequency = 0; model_name = [] };
  disks = [];
  gpus = [];
  host_devices = [];
  hostname = [];
  interfaces = [];
  memory = record { physical_bytes = 0; usable_bytes = 0 };
  mounts = [];
  system_vendor = record {
    manufacturer = [];
    product_name = [];
    serial_number = [];
    virtual = false;
  };
}
