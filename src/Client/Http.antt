-- ===== src/Client/Http.antt =====
-- internal/client/http/client.go and utils.go: the operations of the client, and the transport that
-- it makes anew when the certificate has changed.
pub mod Current
mod Tests
use flotta_device_worker_ng.Base.{
  ℕ, Bool, true, false, not, List, [], ◌∷◌, ◌++◌, Option, none, some, if◌then◌else◌, leb, Bytes,
  codes, str_eq, lookup,
}
use flotta_device_worker_ng.Certificate.{X509, PrivateKey, Manager}
use flotta_device_worker_ng.Entity.Heartbeat
use flotta_device_worker_ng.Entity.Configuration.{DeviceConfigurationMessage}
use flotta_device_worker_ng.Client.Models
use flotta_device_worker_ng.Client.Hardware.{EnrolementInfo, Registration}
use flotta_device_worker_ng.Client.Mapper.{configuration_model2entity}
use flotta_device_worker_ng.Client.Request.{
  post_data, get_data, enrol_action, register_action, heartbeat_action, configuration_action, Body,
  enrolment, registration, heartbeat, RequestBuilder, new_request_builder, with_type, with_action,
  with_url, with_body, with_header, Request, Built, built,
}
use flotta_device_worker_ng.Client.Request
use flotta_device_worker_ng.Edge.Interface
use flotta_device_worker_ng.Edge.Interface.{Error, plain, wrapped, Answer, ok, failed, panicked}

-- The certificate and the key of the TLS configuration of a transport.
pub record Transport : Type 0 where
  pub cert : X509
  pub key : PrivateKey

-- `transportWrappers` is empty from `New` on. Before the first request there is no transport.
pub record Client : Type 0 where
  pub certificate_signature : Bytes
  pub server_url : Bytes
  pub transport : Option Transport

-- `New`, with the text of an address that is parsed.
abbrev pub new : Bytes → Client
new url = record { certificate_signature = []; server_url = url; transport = none }

pub record Response : Type 0 where
  pub status_code : ℕ
  pub body : Option Bytes

-- What the client calls: the builder, by a builder's state; whether `X509KeyPair` takes a certificate
-- and a key; the round trip of a request over a transport, the default one where there is none; and
-- the package json, by the content of a `MessageResponse` (`V` is the type of the values in it).
pub record Web (V W : Type 0) : Type 0 where
  pub build : RequestBuilder → W → Built × W
  pub key_pair : X509 → PrivateKey → Bool
  pub round_trip : Option Transport → Request → W → Option Response × W
  pub content : Bytes → Option (Option (List (Bytes × V)))
  pub text : V → Option Bytes
  pub configuration : List (Bytes × V) → Option Models.DeviceConfigurationMessage

abbrev pub root_url : Bytes
root_url = codes "/api/flotta-management/v1"

-- `fmt.Sprintf("%s/%s/data/%s/out", …)`, with the last part given.
abbrev pub data_url : Client → Bytes → Bytes → Bytes
data_url c device_id last =
    c.server_url ++ (b'/' ∷ (root_url ++ (codes "/data/" ++ (device_id ++ (b'/' ∷ last)))))

module _ {V W : Type 0} (web : Web V W) where
  -- `createTransport`, with `createTLSConfig`; `none` is an error.
  unfoldable pub create_transport : Manager → Option Transport
  create_transport m =
      if web.key_pair m.cert m.private_key
      then some (record { cert = m.cert; key = m.private_key })
      else none

  abbrev pub renewed : Manager → Client → Option Transport → Option (Option Transport) × Client
  renewed m c none = (none, c)
  renewed m c (some t) =
      (some (some t), record c { certificate_signature = m.cert.signature; transport = some t })

  -- `getClient`: the transport of the client that it makes, or an error.
  unfoldable pub get_client : Manager → Client → Option (Option Transport) × Client
  get_client m c =
      if not (str_eq c.certificate_signature m.cert.signature)
      then renewed m c (create_transport m)
      else (some c.transport, c)

  -- The state is the client and the system outside.
  abbrev pub send :
      Request → Option (Option Transport) × Client → W → Option Response × (Client × W)
  send r (none, c) s = (none, (c, s))
  send r (some t, c) s = let (answer, s1) = web.round_trip t r s in (answer, (c, s1))

  -- `do`.
  unfoldable pub do_request : Manager → Client → Request → W → Option Response × (Client × W)
  do_request m c r s = send r (get_client m c) s

  -- What an operation makes of the request that was built, by what it makes of a response.
  abbrev pub answered :
      {A : Type 0}
      → (Response → Answer A)
      → Option Response × (Client × W)
      → Answer A × (Client × W)
  answered f (none, w) = (failed (wrapped plain), w)
  answered f (some r, w) = (f r, w)

  abbrev pub requested :
      {A : Type 0} → (Response → Answer A) → Manager → Client → Built × W → Answer A × (Client × W)
  requested f m c (built r, s) = answered f (do_request m c r s)
  requested f m c (Request.panicked, s) = (panicked, (c, s))
  requested f m c (other, s) = (failed (wrapped plain), (c, s))

  -- A status of 400 and more is an error of no type of its own.
  abbrev pub by_status : Response → Answer Unit
  by_status r = if leb 400 r.status_code then failed plain else ok tt

  -- `Enrol`.
  unfoldable pub enrol : Manager → Bytes → EnrolementInfo → Client × W → Answer Unit × (Client × W)
  enrol m device_id info (c, s) =
      let rb = with_body (enrolment info) (
        with_url (data_url c device_id (codes "out")) (
          with_header (codes "Content-Type") (codes "application/json")
            (with_action enrol_action (with_type post_data new_request_builder)))) in
      requested by_status m c (web.build rb s)

  -- `Heartbeat`.
  unfoldable pub send_heartbeat :
      Manager → Bytes → Heartbeat.Heartbeat → Client × W → Answer Unit × (Client × W)
  send_heartbeat m device_id h (c, s) =
      let rb = with_header (codes "Content-Type") (codes "application/json") (
        with_body (heartbeat h) (
          with_url (data_url c device_id (codes "out"))
            (with_action heartbeat_action (with_type post_data new_request_builder)))) in
      requested by_status m c (web.build rb s)

  -- `extractData`: `take` finds the value in the content, of the type that is asked for, and
  -- `transform` is applied to it. The status of the response is not looked at.
  module _ {T S : Type 0} (take : List (Bytes × V) → Option T) (transform : T → Option S) where
    abbrev pub transformed : Option S → Answer S
    transformed none = failed (wrapped plain)
    transformed (some x) = ok x

    abbrev pub taken : Option T → Answer S
    taken none = failed plain
    taken (some t) = transformed (transform t)

    abbrev pub from_content : Option (Option (List (Bytes × V))) → Answer S
    from_content none = failed (wrapped plain)
    from_content (some none) = failed plain
    from_content (some (some m)) = taken (take m)

    abbrev pub from_body : Option Bytes → Answer S
    from_body none = failed (wrapped plain)
    from_body (some b) = from_content (web.content b)

    unfoldable pub extract_data : Response → Answer S
    extract_data r = from_body r.body

  abbrev pub text_of : Option V → Option Bytes
  text_of none = none
  text_of (some v) = web.text v

  abbrev pub certificate_text : List (Bytes × V) → Option Bytes
  certificate_text m = text_of (lookup (codes "certificate") m)

  -- `Register`.
  unfoldable pub register :
      Manager → Bytes → Registration → Client × W → Answer Bytes × (Client × W)
  register m device_id info (c, s) =
      let rb = with_body (registration info) (
        with_url (data_url c device_id (codes "out")) (
          with_header (codes "Content-Type") (codes "application/json")
            (with_action register_action (with_type post_data new_request_builder)))) in
      requested (extract_data certificate_text some) m c (web.build rb s)

  -- A nil pointer of the message is a panic.
  abbrev pub entity_or_panic : Option DeviceConfigurationMessage → Answer DeviceConfigurationMessage
  entity_or_panic none = panicked
  entity_or_panic (some e) = ok e

  abbrev pub to_entity :
      Answer Models.DeviceConfigurationMessage → Answer DeviceConfigurationMessage
  to_entity (ok m) = entity_or_panic (configuration_model2entity m)
  to_entity (failed e) = failed e
  to_entity panicked = panicked

  -- `GetConfiguration`, with `transformToConfiguration`.
  unfoldable pub get_configuration :
      Manager → Bytes → Client × W → Answer DeviceConfigurationMessage × (Client × W)
  get_configuration m device_id (c, s) =
      let rb = with_url (data_url c device_id (codes "in")) (
        with_header (codes "Content-Type") (codes "application/json")
          (with_action configuration_action (with_type get_data new_request_builder))) in
      requested (λ r. to_entity (extract_data some web.configuration r)) m c (web.build rb s)

  -- The client as the controller sees it.
  abbrev pub edge_client : Interface.Client (Client × W)
  edge_client = record {
    enrol = enrol;
    register = register;
    heartbeat = send_heartbeat;
    get_configuration = get_configuration;
  }
