-- ===== src/Configuration/Manager/Order.antt =====
-- The manager takes a configuration over whatever the order of its workloads.
use mathlib.Core.List.{Permᴰ}
use flotta_device_worker_ng.Base.{
  ◌≡◌, refl, ap, ◌∙◌, sym, true, false, List, [], str_eq, str_eq_refl, Bytes, subst, Bool-cases,
  inl, inr,
}
use flotta_device_worker_ng.Interpreter.Float.{Float32}
use flotta_device_worker_ng.Entity.Workload.{PodWorkload}
use flotta_device_worker_ng.Entity.Configuration.{
  DeviceConfigurationMessage, Format, sorted, hash_text, hash,
}
use flotta_device_worker_ng.Entity.Configuration.Sorted.{
  SameByKey, sort_slice-Perm, sort_slice_idem,
}
use flotta_device_worker_ng.Configuration.Manager.{Manager, Message, adopt, set_configuration}

abbrev pub with_workloads :
    List PodWorkload → DeviceConfigurationMessage → DeviceConfigurationMessage
with_workloads ws m = record m { workloads = ws }

module _ (fl : Float32) (fmt : Format) where
  sorted-Perm :
      (m : DeviceConfigurationMessage) (ws : List PodWorkload)
      → Permᴰ m.workloads ws
      → SameByKey fmt.id m.workloads
      → sorted fmt m ≡ sorted fmt (with_workloads ws m)
  unfolding sorted
  sorted-Perm m ws p s = ap (λ l. with_workloads l m) (sort_slice-Perm fmt.id p s)

  sorted_idem : (m : DeviceConfigurationMessage) → sorted fmt (sorted fmt m) ≡ sorted fmt m
  unfolding sorted
  sorted_idem m = ap (λ l. with_workloads l m) (sort_slice_idem fmt.id m.workloads)

  hash_idem : (m : DeviceConfigurationMessage) → hash fmt (hash fmt m).1 ≡ hash fmt m
  unfolding hash
  hash_idem m = ap (λ t. (fmt.sum (hash_text fmt t), t)) (sorted_idem m)

  hash-Perm :
      (m : DeviceConfigurationMessage) (ws : List PodWorkload)
      → Permᴰ m.workloads ws
      → SameByKey fmt.id m.workloads
      → hash fmt m ≡ hash fmt (with_workloads ws m)
  unfolding hash
  hash-Perm m ws p s = ap (λ t. (fmt.sum (hash_text fmt t), t)) (sorted-Perm m ws p s)

  -- A configuration is taken over in the same way whatever the order in which its workloads come: the
  -- manager behind it and the messages to the scheduler and to the profile manager are the same, where
  -- two workloads of one identifier are the same workload.
  pub set_configuration-Perm :
      (m : DeviceConfigurationMessage) (ws : List PodWorkload) (c : Manager)
      → Permᴰ m.workloads ws
      → SameByKey fmt.id m.workloads
      → set_configuration fl fmt m c ≡ set_configuration fl fmt (with_workloads ws m) c
  unfolding set_configuration
  set_configuration-Perm m ws c p s =
      ap (λ h. adopt fl fmt h (hash fmt c.conf) c) (hash-Perm m ws p s)

  adopt_same :
      (m : DeviceConfigurationMessage) (old : Bytes × DeviceConfigurationMessage) (c : Manager)
      → str_eq (hash fmt m).0 old.0 ≡ true
      → adopt fl fmt (hash fmt m) old c ≡ (record c { conf = old.1 }, [])
  adopt_same m old c e = rw e refl

  adopt_other :
      (m : DeviceConfigurationMessage) (old : Bytes × DeviceConfigurationMessage) (c : Manager)
      → str_eq (hash fmt m).0 old.0 ≡ false
      → (adopt fl fmt (hash fmt m) old c).0 ≡ record c { conf = (hash fmt m).1 }
  adopt_other m old c e = rw e refl

  -- A configuration that comes a second time sends no message and changes nothing, whether the first
  -- one was taken over or had the hash of the one before, if the manager's configuration was not changed
  -- in between through the maps that it shares with the jobs.
  pub set_configuration_twice :
      (m : DeviceConfigurationMessage) (c : Manager)
      → set_configuration fl fmt m (set_configuration fl fmt m c).0
        ≡ ((set_configuration fl fmt m c).0, [])
  unfolding set_configuration
  set_configuration_twice m c =
      let old = hash fmt c.conf in
      let again =
        λ (c1 : Manager) (h : Bytes × DeviceConfigurationMessage). adopt fl fmt (hash fmt m) h c1 in
      elim (Bool-cases (str_eq (hash fmt m).0 old.0)) [
        | inl e ↦
            let c1 : Manager = record c { conf = old.1 } in
            subst
              (λ (r : Manager × List (Message fl fmt)). again r.0 (hash fmt r.0.conf) ≡ (r.0, []))
              (sym (adopt_same m old c e))
              (ap (again c1) (hash_idem c.conf) ∙ adopt_same m old c1 e)
        | inr e ↦
            let c1 : Manager = record c { conf = (hash fmt m).1 } in
            subst (λ (r : Manager). again r (hash fmt r.conf) ≡ (r, []))
              (sym (adopt_other m old c e))
              (ap (again c1) (hash_idem m)
                ∙ adopt_same m (hash fmt m) c1 (str_eq_refl (hash fmt m).0))
      ]
