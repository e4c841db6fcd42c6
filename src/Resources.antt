-- ===== src/Resources.antt =====
-- internal/resources/manager.go: the slices of the cgroups and the file `cpu.max`.
pub mod RoundTrip
pub mod Search
pub mod Settles
mod Tests
use flotta_device_worker_ng.Base.{
  ℕ, ◌+◌, ◌-◌, ◌%◌, ◌^◌, Bool, true, false, not, ◌||◌, ◌&&◌, List, [], ◌∷◌, ◌++◌, Option, none,
  some, if◌then◌else◌, ltb, leb, ◌==◌, Bytes, codes, str_eq,
}
use flotta_device_worker_ng.Base.Decimal.{format, read_digits}
use flotta_device_worker_ng.Entity.Job.{CpuResource, no_resource, is_empty}
use flotta_device_worker_ng.Scheduler.Resources.{
  ReadError, no_error, cpu_max_file_not_found, other_error, replace, split,
}

pub data SliceType : Type 0 where
  user_slice system_slice machine_slice : SliceType

-- `getRootSlice`.
abbrev pub root_slice : SliceType → Bytes
root_slice user_slice = codes "/user.slice/user-1000.slice/user@1000.service"
root_slice system_slice = codes "/system.slice"
root_slice machine_slice = codes "/machine.slice"

-- The path that `CreateSlice` joins for a workload's identifier.
unfoldable pub slice_path : Bool → Bytes → Bytes
slice_path rootless id =
    root_slice (if rootless then user_slice else machine_slice)
    ++ (codes "/flotta.slice/flotta-" ++ (replace b'-' b'_' id ++ codes ".slice"))

-- The file system of the cgroups: whether `LoadManager` takes a path, what `mkdir` and the toggle of the
-- controllers return (`true` is an error), the text that `NewCPUMax` makes of a quota, an `int64`, and a
-- period, the write of `cpu.max` by `Update` and the text of the file.
pub record Cgroups (W : Type 0) : Type 0 where
  pub loads : Bytes → W → Bool
  pub mkdir : Bytes → W → Bool × W
  pub toggle : Bytes → W → Bool × W
  pub cpu_max : ℕ → ℕ → Bytes
  pub write : Bytes → Bytes → W → Bool × W
  pub read : Bytes → W → Option Bytes

-- `strconv.Atoi`, by the bit pattern of its value; `none` is an error.
abbrev pub in_range : ℕ → Option ℕ → Option ℕ
in_range max none = none
in_range max (some n) = if leb n max then some n else none

abbrev pub negated : Option ℕ → Option ℕ
negated none = none
negated (some n) = some ((2 ^ 64 - n) % 2 ^ 64)

abbrev pub unsigned : Bytes → Option ℕ
unsigned [] = none
unsigned (c ∷ s) = read_digits (c ∷ s) 0

unfoldable pub atoi : Bytes → Option ℕ
atoi [] = none
atoi (c ∷ s) =
    if c == b'-'
    then negated (in_range (2 ^ 63) (unsigned s))
    else if c == b'+'
    then in_range (2 ^ 63 - 1) (unsigned s)
    else in_range (2 ^ 63 - 1) (unsigned (c ∷ s))

-- `strings.TrimSpace` of ASCII.
abbrev pub is_space : ℕ → Bool
is_space c = (c == b' ') || (leb 9 c && leb c 13)

unfoldable pub trim_start : Bytes → Bytes
trim_start [] = []
trim_start (c ∷ s) = let rest = trim_start s in if is_space c then rest else c ∷ s

unfoldable pub trim_end : Bytes → Bytes
trim_end [] = []
trim_end (c ∷ s) = let rest = trim_end s in if is_empty rest && is_space c then [] else c ∷ rest

unfoldable pub trim_space : Bytes → Bytes
trim_space s = trim_end (trim_start s)

-- The quota that a part says, with the error.
abbrev pub parsed : Option ℕ → CpuResource × ReadError
parsed none = (no_resource, other_error)
parsed (some n) = (record { value1 = n; value2 = 100000 }, no_error)

unfoldable pub quota_of : Bytes → CpuResource × ReadError
quota_of part =
    if str_eq part (codes "max")
    then (record { value1 = 100000; value2 = 100000 }, no_error)
    else parsed (atoi part)

-- The parts of a line; `none` where all of them are blank.
unfoldable pub read_parts : List Bytes → Option (CpuResource × ReadError)
read_parts [] = none
read_parts (p ∷ ps) =
    let rest = read_parts ps in
    if is_empty (trim_space p) then rest else some (quota_of (trim_space p))

abbrev pub found_or :
    Option (CpuResource × ReadError) → CpuResource × ReadError → CpuResource × ReadError
found_or none rest = rest
found_or (some r) rest = r

-- The lines that the scanner gives, and at the end one more, empty, where the file ends with a newline.
unfoldable pub read_lines : List Bytes → CpuResource × ReadError
read_lines [] = (no_resource, no_error)
read_lines (l ∷ ls) = found_or (read_parts (split b' ' l)) (read_lines ls)

module _ {W : Type 0} (cgroups : Cgroups W) where
  abbrev pub toggled : Bytes → Bool × W → Bool × W
  toggled path (true, s) = (true, s)
  toggled path (false, s) = if cgroups.loads path s then cgroups.toggle path s else (true, s)

  -- `CreateSlice`; the answer is whether there is an error.
  unfoldable pub create_slice : Bool → Bytes → W → Bool × W
  create_slice rootless id s =
      let path = slice_path rootless id in
      toggled path (cgroups.mkdir (codes "/sys/fs/cgroup" ++ path) s)

  -- `Set`.
  unfoldable pub set : Bytes → CpuResource → W → Bool × W
  set path r s =
      if cgroups.loads path s
      then cgroups.write path (cgroups.cpu_max r.value1 r.value2) s
      else (true, s)

  abbrev pub read_file : Option Bytes → CpuResource × ReadError
  read_file none = (no_resource, cpu_max_file_not_found)
  read_file (some text) = read_lines (split 10 text)

  -- `GetResources`.
  unfoldable pub get_resources : Bytes → W → CpuResource × ReadError
  get_resources path s =
      if cgroups.loads path s then read_file (cgroups.read path s) else (no_resource, other_error)
