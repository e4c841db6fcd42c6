-- ===== src/Edge/Loop/Tests.antt =====
-- Runs of the controller's loop at concrete inputs.
use flotta_device_worker_ng.Base.{ℕ, ◌+◌, ◌≡◌, inl, refl, true, [], ◌∷◌, none, some, codes, str_eq}
use flotta_device_worker_ng.Interpreter.Naturals.{naturals}
use flotta_device_worker_ng.Entity.Configuration.{DeviceConfigurationMessage}
use flotta_device_worker_ng.Certificate.{
  no_certificate, set_certificate, generate_csr, generate_key, marshal_key_to_pem,
  write_certificate,
}
use flotta_device_worker_ng.Certificate.Plain.{plain, device}
use flotta_device_worker_ng.Configuration.Manager.{new}
use flotta_device_worker_ng.Configuration.Manager.Plain.{names, no_hardware}
use flotta_device_worker_ng.Client.Models
use flotta_device_worker_ng.Client.Models.{DeviceConfiguration, HeartbeatConfiguration}
use flotta_device_worker_ng.Client.Mapper.{configuration_of, message_of, configuration_model2entity}
use flotta_device_worker_ng.Edge.Interface.{ok, Client}
use flotta_device_worker_ng.Edge.Controller.{
  full, nil, empty, broken, Settings, enrolled, registered, operated, quiet, start, on_enrol,
  on_register,
}
use flotta_device_worker_ng.Edge.Loop.{State, on_tick, Step, Run}
use flotta_device_worker_ng.Edge.Loop.Phases.{enrolling, follow_from, run_in_order}
use flotta_device_worker_ng.Edge.Loop.Refused.{register_refused}
use flotta_device_worker_ng.Edge.Loop.Period.{period_panics}

abbrev settings : Settings
settings = record {
  device_id = codes "device";
  target_namespace = [];
  certificate_file = codes "cert.pem";
  private_key = codes "key.pem";
}

-- A message without a period.
abbrev no_period : HeartbeatConfiguration
no_period = record { include = some true; period_seconds = 0 }

abbrev bare : DeviceConfiguration
bare = record { heartbeat = some no_period; profiles = [] }

abbrev message : Models.DeviceConfigurationMessage
message = record {
  configuration = some bare;
  device_id = codes "device";
  workloads = [];
  workloads_monitoring_interval = 0;
}

abbrev entity : DeviceConfigurationMessage
entity = message_of message (configuration_of true no_period [])

-- An operator that agrees to everything, whose calls are counted, and that signs with an empty text.
abbrev agreeing : Client ℕ
agreeing = record {
  enrol = λ m id info w. (ok tt, w + 1);
  register = λ m id info w. (ok [], w + 1);
  heartbeat = λ m id h w. (ok tt, w + 1);
  get_configuration = λ m id w. (ok entity, w + 1);
}

abbrev Loop : Type 0
Loop = State plain naturals names agreeing settings

abbrev began : Loop
began = start plain naturals names agreeing settings device (new no_hardware) [] 0

abbrev asked : Loop
asked = (on_tick plain naturals names agreeing settings began).1

-- A tick, and the enrolment that it asks for.
ticked_and_enrolled :
    Run plain naturals names agreeing settings
      (quiet ∷ (enrolled ∷ []))
      began
      (record began { enrol = nil; register = empty; world = 1 })
unfolding on_tick on_enrol
ticked_and_enrolled =
    Run.next (Step.tick began refl refl) (Run.next (Step.enrol asked refl refl) (Run.stop _))

run_in_order_example : follow_from (some enrolling) (quiet ∷ (enrolled ∷ [])) ≡ true
run_in_order_example =
    run_in_order plain naturals names agreeing settings device (new no_hardware) [] 0
      ticked_and_enrolled

-- The device has been enrolled and is to be registered.
abbrev to_register : Loop
to_register = record began { enrol = nil; register = full }

register_refused_example :
    on_register plain naturals names agreeing settings (codes "key") true true to_register ≡ (
      registered,
      record to_register {
        register = nil;
        files =
            (write_certificate plain true true settings.certificate_file settings.private_key device
              []).1;
        world = 1;
      },
    )
unfolding generate_csr generate_key marshal_key_to_pem set_certificate str_eq
register_refused_example =
    register_refused plain naturals names agreeing settings (codes "key") to_register _ _ [] 1
      no_certificate _ refl refl refl

-- The device operates.
abbrev operating : Loop
operating = record began { enrol = nil; op = full }

period_panics_example :
    (t : Loop) × Run plain naturals names agreeing settings (operated ∷ (quiet ∷ [])) operating t
    × (t.status ≡ broken)
unfolding configuration_model2entity
period_panics_example =
    period_panics plain naturals names agreeing settings none operating message bare no_period true
      entity 1 2 refl refl refl (inl refl) refl refl refl refl refl refl refl
