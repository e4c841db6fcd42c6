-- ===== src/Client/Http/Tests.antt =====
-- The client at concrete inputs.
use flotta_device_worker_ng.Base.{ℕ, refl, true, none, some, codes, str_eq}
use flotta_device_worker_ng.Certificate.Plain.{device}
use flotta_device_worker_ng.Client.Request.{cannot_create}
use flotta_device_worker_ng.Client.Http.{Transport, Client, Web, new, create_transport, get_client}
use flotta_device_worker_ng.Client.Http.Current.{IsMatched, IsCurrent, get_client-IsCurrent}

-- A network that does not answer.
abbrev silent : Web ℕ ℕ
silent = record {
  build = λ rb s. (cannot_create, s);
  key_pair = λ cert key. true;
  round_trip = λ t r s. (none, s);
  content = λ b. none;
  text = λ v. none;
  configuration = λ m. none;
}

abbrev transport : Transport
transport = record { cert = device.cert; key = device.private_key }

abbrev client : Client
client = record {
  certificate_signature = device.cert.signature;
  server_url = codes "https://operator";
  transport = some transport;
}

get_client-IsCurrent_example : IsMatched client × IsCurrent device (some transport)
unfolding get_client create_transport str_eq
get_client-IsCurrent_example =
    get_client-IsCurrent silent device (new (codes "https://operator")) client (some transport) refl
      (cc) refl
