-- ===== src/Entity/Configuration.antt =====
-- internal/entity/configuration.go, heartbeat_configuration.go and message.go: what the device is
-- configured with, and the hash by which a configuration is told from the one before.
pub mod Sorted
use flotta_device_worker_ng.Base.{
  ℕ, Bool, true, false, List, [], ◌∷◌, ◌++◌, Option, if◌then◌else◌, ltb, ◌==◌, ◌&&◌, ◌||◌, Bytes,
}
use flotta_device_worker_ng.Entity.Workload.{PodWorkload}
use flotta_device_worker_ng.Entity.Hardware.{Mount}

pub data Scope : Type 0 where
  full_scope delta_scope : Scope

pub record HardwareProfileConfiguration : Type 0 where
  pub include : Bool
  pub scope : Scope

-- A `time.Duration` is the bit pattern of its `int64`, a number of nanoseconds.
pub record HeartbeatConfiguration : Type 0 where
  pub hardware_profile : HardwareProfileConfiguration
  pub period : ℕ

pub record OsInformation : Type 0 where
  pub automatically_upgrade : Bool
  pub commit_id : Bytes
  pub hosted_objects_url : Bytes

-- The maps of `Profiles` are lists of pairs, in the order in which they are ranged over.
pub record DeviceConfiguration : Type 0 where
  pub heartbeat : HeartbeatConfiguration
  pub mounts : List Mount
  pub os_information : OsInformation
  pub profiles : List (Bytes × List (Bytes × Bytes))

pub record DeviceConfigurationMessage : Type 0 where
  pub configuration : DeviceConfiguration
  pub device_id : Bytes
  pub version : Bytes
  pub workloads : List PodWorkload
  pub workloads_monitoring_interval : ℕ

-- `<` on strings: byte by byte, and a prefix is less.
unfoldable pub str_lt : Bytes → Bytes → Bool
str_lt [] [] = false
str_lt [] (y ∷ ys) = true
str_lt (x ∷ xs) [] = false
str_lt (x ∷ xs) (y ∷ ys) = ltb x y || ((x == y) && str_lt xs ys)

-- `sort.Slice` by a key, which puts the elements in the order of their keys: an insertion sort here.
module _ {A : Type 0} (key : A → Bytes) where
  unfoldable pub insert_sorted : A → List A → List A
  insert_sorted x [] = x ∷ []
  insert_sorted x (y ∷ ys) = if str_lt (key y) (key x) then y ∷ insert_sorted x ys else x ∷ (y ∷ ys)

  unfoldable pub sort_slice : List A → List A
  sort_slice [] = []
  sort_slice (x ∷ xs) = insert_sorted x (sort_slice xs)

unfoldable pub write_all : {A : Type 0} → (A → Bytes) → List A → Bytes
write_all show [] = []
write_all show (x ∷ xs) = show x ++ write_all show xs

-- What the hash calls: SHA-256 in hexadecimal, the formats of a duration, of a configuration and of a
-- workload, and a workload's identifier.
pub record Format : Type 0 where
  pub sum : Bytes → Bytes
  pub duration : ℕ → Bytes
  pub configuration : DeviceConfiguration → Bytes
  pub workload : PodWorkload → Bytes
  pub id : PodWorkload → Bytes

module _ (fmt : Format) where
  -- `Hash` sorts the workloads in place: the message behind it has them sorted.
  unfoldable pub sorted : DeviceConfigurationMessage → DeviceConfigurationMessage
  sorted m = record m { workloads = sort_slice fmt.id m.workloads }

  unfoldable pub hash_text : DeviceConfigurationMessage → Bytes
  hash_text m =
      m.device_id
      ++ (m.version
          ++ (fmt.duration m.workloads_monitoring_interval
              ++ (fmt.configuration m.configuration ++ write_all fmt.workload m.workloads)))

  -- `Hash`, with the message behind it.
  unfoldable pub hash : DeviceConfigurationMessage → Bytes × DeviceConfigurationMessage
  hash m = let m' = sorted m in (fmt.sum (hash_text m'), m')
