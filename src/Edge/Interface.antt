-- ===== src/Edge/Interface.antt =====
-- internal/edge/errors.go and the interface `Client` of internal/edge/controller.go, with the state of
-- the system outside passed on.
use flotta_device_worker_ng.Base.{Bool, true, false, Bytes}
use flotta_device_worker_ng.Certificate.{Manager}
use flotta_device_worker_ng.Entity.Heartbeat.{Heartbeat}
use flotta_device_worker_ng.Entity.Configuration.{DeviceConfigurationMessage}
use flotta_device_worker_ng.Client.Hardware.{EnrolementInfo, Registration}

-- A value of `error`: one of the two types of errors.go, what `fmt.Errorf` makes of another error with
-- `%w`, or one of another type.
pub data Error : Type 0 where
  unauthorized_access request_error plain : Error
  wrapped : Error → Error

-- The case `UnauthorizedAccessError` of a switch on an error's type, which does not unwrap it.
abbrev pub is_unauthorized : Error → Bool
is_unauthorized unauthorized_access = true
is_unauthorized e = false

-- What a call returns, or that it panics.
pub data Answer (A : Type 0) : Type 0 where
  ok : A → Answer A
  failed : Error → Answer A
  panicked : Answer A

-- `RegistrationResponse` is the signed certificate. The client shares the manager of the certificate
-- with the controller, so that a call takes it as it is then.
pub record Client (W : Type 0) : Type 0 where
  pub enrol : Manager → Bytes → EnrolementInfo → W → Answer Unit × W
  pub register : Manager → Bytes → Registration → W → Answer Bytes × W
  pub heartbeat : Manager → Bytes → Heartbeat → W → Answer Unit × W
  pub get_configuration : Manager → Bytes → W → Answer DeviceConfigurationMessage × W
