-- ===== src/Configuration/Manager/Tests.antt =====
-- The manager at concrete inputs.
use mathlib.Core.List.{Permᴰ, Memᴰ}
use flotta_device_worker_ng.Base.{◌≡◌, refl, sym, ◌∙◌, [], ◌∷◌, none, some, codes, str_eq}
use flotta_device_worker_ng.Interpreter.Naturals.{naturals}
use flotta_device_worker_ng.Entity.Workload.{PodWorkload}
use flotta_device_worker_ng.Entity.Configuration.{
  DeviceConfigurationMessage, str_lt, insert_sorted, sort_slice, write_all, sorted, hash_text, hash,
}
use flotta_device_worker_ng.Entity.Configuration.Sorted.{SameByKey}
use flotta_device_worker_ng.Configuration.{create_device_profiles}
use flotta_device_worker_ng.Configuration.Manager.{
  workload_configuration, profile_configuration, default_configuration, new, set_configuration,
}
use flotta_device_worker_ng.Configuration.Manager.Plain.{workload, names, no_hardware}
use flotta_device_worker_ng.Configuration.Manager.Order.{with_workloads, set_configuration-Perm}

abbrev a : PodWorkload
a = workload (codes "a")

abbrev b : PodWorkload
b = workload (codes "b")

abbrev two : DeviceConfigurationMessage
two = with_workloads (a ∷ (b ∷ [])) default_configuration

-- The workloads are sent in the order of their identifiers.
sends_sorted :
    (set_configuration naturals names
      (with_workloads (b ∷ (a ∷ [])) default_configuration)
      (new no_hardware)).1
    ≡ workload_configuration (some (a ∷ (b ∷ []))) ∷ (profile_configuration none ∷ [])
unfolding set_configuration hash hash_text sorted sort_slice insert_sorted str_lt write_all str_eq
    create_device_profiles
sends_sorted = refl

two-SameByKey : SameByKey (λ (w : PodWorkload). w.name) (a ∷ (b ∷ []))
two-SameByKey x y (Memᴰ.head e) (Memᴰ.head f) k = e ∙ sym f
two-SameByKey x y (Memᴰ.head e) (Memᴰ.tail (Memᴰ.tail n)) k = elim n [ ]
two-SameByKey x y (Memᴰ.tail (Memᴰ.head e)) (Memᴰ.tail (Memᴰ.tail n)) k = elim n [ ]
two-SameByKey x y (Memᴰ.tail (Memᴰ.tail m)) n k = elim m [ ]
two-SameByKey x y (Memᴰ.head e) (Memᴰ.tail (Memᴰ.head f)) k = cc (e, f, k)
two-SameByKey x y (Memᴰ.tail (Memᴰ.head e)) (Memᴰ.head f) k = cc (e, f, k)
two-SameByKey x y (Memᴰ.tail (Memᴰ.head e)) (Memᴰ.tail (Memᴰ.head f)) k = e ∙ sym f

set_configuration-Perm_example :
    set_configuration naturals names two (new no_hardware)
    ≡ set_configuration naturals names (with_workloads (b ∷ (a ∷ [])) two) (new no_hardware)
set_configuration-Perm_example =
    set_configuration-Perm naturals names two (b ∷ (a ∷ [])) (new no_hardware)
      (Permᴰ.swap refl refl) two-SameByKey
