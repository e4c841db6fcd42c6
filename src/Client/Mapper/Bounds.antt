-- ===== src/Client/Mapper/Bounds.antt =====
-- Which numbers of seconds become the durations that they mean.
use flotta_device_worker_ng.Base.{ℕ, ◌*◌, ◌^◌, ◌≤◌, ◌<◌, ◌≡◌, ◌↔◌, Bool, some, arith}
use flotta_device_worker_ng.Entity.Configuration.{DeviceConfigurationMessage}
use flotta_device_worker_ng.Client.Models
use flotta_device_worker_ng.Client.Models.{DeviceConfiguration, HeartbeatConfiguration}
use flotta_device_worker_ng.Client.Mapper.{
  duration_of, configuration_of, message_of, configuration_model2entity,
  configuration_model2entity-some,
}

-- A bit pattern of an `int64` that is not negative.
abbrev pub NonNegative : ℕ → Type 0
NonNegative d = d < 2 ^ 63

-- A duration is the number of seconds, in nanoseconds.
abbrev pub Means : ℕ → ℕ → Type 0
Means d s = (d ≡ s * 1000000000) × NonNegative d

duration_exact : (s : ℕ) → NonNegative s → Means (duration_of s) s ↔ (s ≤ 9223372036)
unfolding duration_of
duration_exact s h = (λ e. omega (arith, e), λ e. (omega (arith, e), omega (arith, e)))

pub duration_negative : (s : ℕ) → 9223372036 < s → s ≤ 18446744073 → ¬ NonNegative (duration_of s)
unfolding duration_of
duration_negative s g h n = omega arith

-- The period of the heartbeat and the interval of the monitoring that are made of a message mean the
-- seconds that it says, where these are not negative, exactly as long as there are at most 9223372036
-- of them: more wrap around in 64 bits.
pub configuration_model2entity_period :
    (m : Models.DeviceConfigurationMessage) (c : DeviceConfiguration) (h : HeartbeatConfiguration)
    (include : Bool)
    → m.configuration ≡ some c
    → c.heartbeat ≡ some h
    → h.include ≡ some include
    → NonNegative h.period_seconds
    → NonNegative m.workloads_monitoring_interval
    → (e : DeviceConfigurationMessage) × (configuration_model2entity m ≡ some e)
      × (Means e.configuration.heartbeat.period h.period_seconds ↔ (h.period_seconds ≤ 9223372036))
      × (Means e.workloads_monitoring_interval m.workloads_monitoring_interval
          ↔ (m.workloads_monitoring_interval ≤ 9223372036))
configuration_model2entity_period m c h include p q r n k = (
  message_of m (configuration_of include h c.profiles),
  configuration_model2entity-some m p q r,
  duration_exact h.period_seconds n,
  duration_exact m.workloads_monitoring_interval k,
)
