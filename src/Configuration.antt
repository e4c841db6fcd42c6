-- ===== src/Configuration.antt =====
-- internal/configuration/manager.go: the profiles of a configuration.
pub mod Maps
pub mod Profiles
pub mod Results
pub mod Ranged
pub mod Reordered
pub mod Manager
mod Tests
use flotta_device_worker_ng.Base.{List, [], ◌∷◌, Option, none, some, Bytes, insert}
use flotta_device_worker_ng.Interpreter.Float.{Float32}
use flotta_device_worker_ng.Interpreter.Parser.{E}
use flotta_device_worker_ng.Interpreter.Parser.Outcome.{Result, ok, err, out_of_fuel}
use flotta_device_worker_ng.Interpreter.Eval.{new_interpreter}
use flotta_device_worker_ng.Profile.Evaluator.{ProfileCondition, DeviceProfile}

-- The names and expressions of a profile's conditions, and the profiles of a configuration, in the
-- order in which the maps are ranged over.
abbrev pub Conditions : Type 0
Conditions = List (Bytes × Bytes)

abbrev pub ConfProfiles : Type 0
ConfProfiles = List (Bytes × Conditions)

module _ (fl : Float32) where
  -- `break` at an expression that does not parse.
  abbrev pub appended :
      Bytes → Result (E fl) → List (ProfileCondition fl) → List (ProfileCondition fl)
  appended name (ok e) rest = record { name = name; expression = e } ∷ rest
  appended name (err x) rest = []
  appended name out_of_fuel rest = []

  unfoldable pub create_conditions : Conditions → List (ProfileCondition fl)
  create_conditions [] = []
  create_conditions ((name, expression) ∷ cs) =
      appended name (new_interpreter fl expression) (create_conditions cs)

  abbrev pub DeviceProfiles : Type 0
  DeviceProfiles = List (Bytes × DeviceProfile fl)

  unfoldable pub create_profiles : ConfProfiles → DeviceProfiles → DeviceProfiles
  create_profiles [] m = m
  create_profiles ((name, conditions) ∷ ps) m =
      create_profiles ps
        (insert name (record { name = name; conditions = create_conditions conditions }) m)

  abbrev pub present : DeviceProfiles → Option DeviceProfiles
  present [] = none
  present (p ∷ ps) = some (p ∷ ps)

  -- `createDeviceProfiles`, which never returns an error.
  unfoldable pub create_device_profiles : ConfProfiles → Option DeviceProfiles
  create_device_profiles [] = none
  create_device_profiles (p ∷ ps) = present (create_profiles (p ∷ ps) [])
