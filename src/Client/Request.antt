-- ===== src/Client/Request.antt =====
-- internal/client/http/request.go: the builder of a request.
use mathlib.Core.Option
use flotta_device_worker_ng.Base.{
  Bool, List, [], Option, none, some, if◌then◌else◌, Bytes, codes, insert,
}
use flotta_device_worker_ng.Entity.Heartbeat
use flotta_device_worker_ng.Client.Models
use flotta_device_worker_ng.Client.Hardware.{
  EnrolementInfo, Registration, enrol_info_entity2model, register_info_entity2model,
  heartbeat_entity2model,
}

pub data RequestType : Type 0 where
  post_data get_data : RequestType

pub data ActionType : Type 0 where
  enrol_action register_action heartbeat_action configuration_action : ActionType

-- The types of the bodies that are set.
pub data Body : Type 0 where
  no_body : Body
  enrolment : EnrolementInfo → Body
  registration : Registration → Body
  heartbeat : Heartbeat.Heartbeat → Body

pub record RequestBuilder : Type 0 where
  pub action : ActionType
  pub request_type : RequestType
  pub body : Body
  pub url : Bytes
  pub header : List (Bytes × Bytes)

-- `newRequestBuilder`: the constants begin with `postDataMessageForDeviceType` and `enrolActionType`.
abbrev pub new_request_builder : RequestBuilder
new_request_builder = record {
  action = enrol_action;
  request_type = post_data;
  body = no_body;
  url = [];
  header = [];
}

abbrev pub with_type : RequestType → RequestBuilder → RequestBuilder
with_type t rb = record rb { request_type = t }

abbrev pub with_action : ActionType → RequestBuilder → RequestBuilder
with_action a rb = record rb { action = a }

abbrev pub with_url : Bytes → RequestBuilder → RequestBuilder
with_url url rb = record rb { url = url }

abbrev pub with_body : Body → RequestBuilder → RequestBuilder
with_body b rb = record rb { body = b }

abbrev pub with_header : Bytes → Bytes → RequestBuilder → RequestBuilder
with_header key value rb = record rb { header = insert key value rb.header }

-- `models.Message`, and the content of one.
pub data Content : Type 0 where
  enrolment_content : Models.EnrolmentInfo → Content
  registration_content : Models.RegistrationInfo → Content
  heartbeat_content : Models.Heartbeat → Content

pub record Message : Type 0 where
  pub directive : Bytes
  pub content : Content
  pub message_id : Bytes
  pub type : Bytes

pub record Request : Type 0 where
  pub method : Bytes
  pub url : Bytes
  pub body : Option Bytes
  pub header : List (Bytes × Bytes)

-- What `Build` returns, or that it panics.
pub data Built : Type 0 where
  built : Request → Built
  wrong_body cannot_marshal cannot_create panicked : Built

-- The data that is sent: none, a message, an error at a body of another type, or the panic of the mapper.
pub data Payload : Type 0 where
  no_data bad_body nil_pointer : Payload
  message : Message → Payload

unfoldable pub method_of : RequestType → Bytes
method_of post_data = codes "POST"
method_of get_data = codes "GET"

abbrev pub payload_of : Option Message → Payload
payload_of none = nil_pointer
payload_of (some m) = message m

-- `uuid` is the identifier that the package uuid makes.
module _ (uuid : Bytes) where
  abbrev pub command : Bytes → Content → Message
  command directive content = record {
    directive = directive;
    content = content;
    message_id = uuid;
    type = codes "command";
  }

  abbrev pub heartbeat_message : Models.Heartbeat → Message
  heartbeat_message h = record {
    directive = codes "heartbeat";
    content = heartbeat_content h;
    message_id = uuid;
    type = [];
  }

  unfoldable pub data_of : ActionType → Body → Payload
  data_of enrol_action (enrolment e) = payload_of (
      Option.map (λ m. command (codes "enrolment") (enrolment_content m))
        (enrol_info_entity2model e))
  data_of register_action (registration r) = payload_of (
      Option.map (λ m. command (codes "registration") (registration_content m))
        (register_info_entity2model r))
  data_of heartbeat_action (heartbeat h) =
      payload_of (Option.map heartbeat_message (heartbeat_entity2model h))
  data_of configuration_action body = no_data
  data_of enrol_action body = bad_body
  data_of register_action body = bad_body
  data_of heartbeat_action body = bad_body

  -- `marshal` is `json.Marshal`, and `valid` is whether `NewRequestWithContext` takes the URL. The
  -- builder's headers have different keys, each in its canonical form.
  module _ (marshal : Message → Option Bytes) (valid : Bytes → Bool) where
    abbrev pub request_with : RequestBuilder → Option Bytes → Built
    request_with rb body =
        if valid rb.url
        then built (record {
          method = method_of rb.request_type;
          url = rb.url;
          body = body;
          header = rb.header;
        })
        else cannot_create

    abbrev pub marshalled : RequestBuilder → Option Bytes → Built
    marshalled rb none = cannot_marshal
    marshalled rb (some payload) = request_with rb (some payload)

    abbrev pub build_with : RequestBuilder → Payload → Built
    build_with rb no_data = request_with rb none
    build_with rb bad_body = wrong_body
    build_with rb nil_pointer = panicked
    build_with rb (message m) = marshalled rb (marshal m)

    -- `Build`.
    unfoldable pub build : RequestBuilder → Built
    build rb = build_with rb (data_of rb.action rb.body)
