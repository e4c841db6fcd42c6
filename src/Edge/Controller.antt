-- ===== src/Edge/Controller.antt =====
-- internal/edge/controller.go: the state of the controller's loop and the branches of its `select`.
use flotta_device_worker_ng.Base.{
  ℕ, Bool, true, false, List, [], ◌++◌, Option, none, some, if◌then◌else◌, ◌==◌, Bytes, codes,
}
use flotta_device_worker_ng.Interpreter.Float.{Float32}
use flotta_device_worker_ng.Entity.State.{JobState}
use flotta_device_worker_ng.Entity.Configuration.{DeviceConfigurationMessage, Format}
use flotta_device_worker_ng.Certificate
use flotta_device_worker_ng.Certificate.{
  CertificateError, Crypto, Files, set_certificate, generate_csr, write_certificate,
}
use flotta_device_worker_ng.Configuration.Manager
use flotta_device_worker_ng.Configuration.Manager.{Message, heartbeat, set_configuration}
use flotta_device_worker_ng.Edge.Interface.{
  Error, wrapped, is_unauthorized, Answer, ok, failed, panicked, Client,
}

-- A variable of type `chan struct{}`: nil, or a channel for one message, without it or with it.
pub data Channel : Type 0 where
  nil empty full : Channel

-- Whether the loop goes on, waits for ever for room in a channel that only it reads, or has panicked.
pub data Status : Type 0 where
  going blocked broken : Status

-- What `config` returns.
pub record Settings : Type 0 where
  pub device_id : Bytes
  pub target_namespace : Bytes
  pub certificate_file : Bytes
  pub private_key : Bytes

-- What a branch has done: an enrolment or a registration that succeeded, an operation, or else.
pub data Event : Type 0 where
  enrolled registered operated quiet : Event

-- The period of a conf's heartbeat.
abbrev pub period_of : DeviceConfigurationMessage → ℕ
period_of m = m.configuration.heartbeat.period

-- The certificate manager behind `SetCertificate`.
abbrev pub manager_or : Certificate.Manager → Option Certificate.Manager → Certificate.Manager
manager_or m none = m
manager_or m (some m') = m'

module _ {W : Type 0} (crypto : Crypto) (fl : Float32) (fmt : Format) (client : Client W)
    (settings : Settings) where
  -- The variables of `run`, with the period of the ticker and whether it is stopped, the managers of
  -- the controller, the messages that `SetConfiguration` has sent, the files and the system outside.
  pub record Controller : Type 0 where
    pub enrol : Channel
    pub register : Channel
    pub op : Channel
    pub configuration : Option ℕ
    pub period : ℕ
    pub stopped : Bool
    pub status : Status
    pub certs : Certificate.Manager
    pub conf : Manager.Manager
    pub sent : List (Message fl fmt)
    pub files : Files
    pub world : W

  -- The state in which `run` begins.
  abbrev pub start : Certificate.Manager → Manager.Manager → Files → W → Controller
  start certs conf files world = record {
    enrol = empty;
    register = nil;
    op = empty;
    configuration = none;
    period = period_of conf.conf;
    stopped = false;
    status = going;
    certs = certs;
    conf = conf;
    sent = [];
    files = files;
    world = world;
  }

  abbrev pub enrolled_with : Answer Unit × W → Controller → Event × Controller
  enrolled_with (ok u, w) s = (enrolled, record s { enrol = nil; register = empty; world = w })
  enrolled_with (failed e, w) s = (quiet, record s { enrol = empty; world = w })
  enrolled_with (panicked, w) s = (quiet, record s { status = broken; world = w })

  -- The branch of `enrol`, which takes the message out of the channel.
  unfoldable pub on_enrol : Controller → Event × Controller
  on_enrol s =
      enrolled_with
        (client.enrol s.certs settings.device_id
          (record {
            hardware = s.conf.hardware;
            model_name = [];
            target_namespace = settings.target_namespace;
          })
          s.world)
        s

  abbrev pub written_with : Certificate.Manager → Bool × Files → W → Controller → Event × Controller
  written_with m (true, fs) w s =
      (registered, record s { register = nil; certs = m; files = fs; world = w })
  written_with m (false, fs) w s =
      (quiet, record s { register = empty; certs = m; files = fs; world = w })

  -- The error of `SetCertificate` is dropped. `create` and `write` are as in `WriteCertificate`.
  abbrev pub registered_with :
      Bool → Bool → Bytes → Answer Bytes × W → Controller → Event × Controller
  registered_with create write key (ok signed, w) s =
      let m = manager_or s.certs (set_certificate crypto signed key (some s.certs)).1 in
      written_with m
        (write_certificate crypto create write settings.certificate_file settings.private_key m
          s.files)
        w s
  registered_with create write key (failed e, w) s =
      (quiet, record s { register = empty; world = w })
  registered_with create write key (panicked, w) s =
      (quiet, record s { status = broken; world = w })

  abbrev pub request_registration :
      Bool → Bool → Option (Bytes × Bytes) → Controller → Event × Controller
  request_registration create write none s = (quiet, record s { register = empty })
  request_registration create write (some (csr, key)) s =
      registered_with create write key
        (client.register s.certs settings.device_id
          (record { certificate_request = csr; hardware = s.conf.hardware }) s.world)
        s

  -- The branch of `register`. The request is made for the text `deviceID`.
  unfoldable pub on_register : Bytes → Bool → Bool → Controller → Event × Controller
  on_register random create write s =
      request_registration create write (generate_csr crypto random (codes "deviceID") s.certs) s

  -- What a goroutine of the operation makes of an answer: its error and the state behind it.
  abbrev pub heartbeat_with : Answer Unit × W → Controller → Option Error × Controller
  heartbeat_with (ok u, w) s = (none, record s { world = w })
  heartbeat_with (failed e, w) s = (some (wrapped e), record s { world = w })
  heartbeat_with (panicked, w) s = (none, record s { status = broken; world = w })

  abbrev pub send_heartbeat :
      Option (List (Bytes × JobState)) → Controller → Option Error × Controller
  send_heartbeat reader s =
      heartbeat_with (client.heartbeat s.certs settings.device_id (heartbeat reader s.conf) s.world)
        s

  abbrev pub adopt : DeviceConfigurationMessage → Controller → Controller
  adopt m s =
      let (conf', messages) = set_configuration fl fmt m s.conf in
      record s { conf = conf'; sent = s.sent ++ messages }

  -- A send to `configuration` without room blocks, before the configuration is set.
  abbrev pub send_period : ℕ → DeviceConfigurationMessage → Option ℕ → Controller → Controller
  send_period p m none s = adopt m (record s { configuration = some p })
  send_period p m (some q) s = record s { status = blocked }

  abbrev pub take_configuration : DeviceConfigurationMessage → Controller → Controller
  take_configuration m s =
      if period_of m == period_of s.conf.conf
      then adopt m s
      else send_period (period_of m) m s.configuration s

  abbrev pub configuration_with :
      Answer DeviceConfigurationMessage × W → Controller → Option Error × Controller
  configuration_with (ok m, w) s = (none, take_configuration m (record s { world = w }))
  configuration_with (failed e, w) s = (some (wrapped e), record s { world = w })
  configuration_with (panicked, w) s = (none, record s { status = broken; world = w })

  abbrev pub get_configuration : Controller → Option Error × Controller
  get_configuration s =
      configuration_with (client.get_configuration s.certs settings.device_id s.world) s

  -- The type switch on the error that `Wait` returns.
  abbrev pub on_error : Option Error → Controller → Controller
  on_error none s = s
  on_error (some e) s = if is_unauthorized e then record s { enrol = empty } else s
