-- ===== src/Client/Mapper/Nil.antt =====
-- At which messages of the operator, with no nil pointer in a list, the mapper panics.
use flotta_device_worker_ng.Base.{◌≡◌, ◌↔◌, refl, Bool, true, false, Option, none, some, List}
use flotta_device_worker_ng.Client.Models
use flotta_device_worker_ng.Client.Models.{DeviceConfiguration, HeartbeatConfiguration, Profile}
use flotta_device_worker_ng.Client.Mapper.{
  message_with, with_configuration, with_heartbeat, with_profile, configuration_model2entity,
}

-- Whether the pointers are set that lead to the hardware profile of the heartbeat.
abbrev pub is_set : {A : Type 0} → Option A → Bool
is_set none = false
is_set (some x) = true

abbrev pub has_profile : Option HeartbeatConfiguration → Bool
has_profile none = false
has_profile (some h) = is_set h.include

abbrev pub is_complete : Option DeviceConfiguration → Bool
is_complete none = false
is_complete (some c) = has_profile c.heartbeat

profile_nil :
    (m : Models.DeviceConfigurationMessage) (h : HeartbeatConfiguration) (ps : List Profile)
    (o : Option Bool)
    → (message_with m (with_profile h ps o) ≡ none) ↔ (is_set o ≡ false)
profile_nil m h ps none = (λ e. refl, λ e. refl)
profile_nil m h ps (some b) = (λ e. cc e, λ e. cc e)

heartbeat_nil :
    (m : Models.DeviceConfigurationMessage) (ps : List Profile) (o : Option HeartbeatConfiguration)
    → (message_with m (with_heartbeat ps o) ≡ none) ↔ (has_profile o ≡ false)
heartbeat_nil m ps none = (λ e. refl, λ e. refl)
heartbeat_nil m ps (some h) = profile_nil m h ps h.include

configuration_nil :
    (m : Models.DeviceConfigurationMessage) (o : Option DeviceConfiguration)
    → (message_with m (with_configuration o) ≡ none) ↔ (is_complete o ≡ false)
configuration_nil m none = (λ e. refl, λ e. refl)
configuration_nil m (some c) = heartbeat_nil m c.profiles c.heartbeat

-- Of the messages whose lists hold no nil pointer, the mapper panics exactly at those without a
-- configuration, without a heartbeat in it, or without a hardware profile in the heartbeat.
pub configuration_model2entity_nil :
    (m : Models.DeviceConfigurationMessage)
    → (configuration_model2entity m ≡ none) ↔ (is_complete m.configuration ≡ false)
unfolding configuration_model2entity
configuration_model2entity_nil m = configuration_nil m m.configuration
