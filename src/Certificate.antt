-- ===== src/Certificate.antt =====
-- internal/certificate/manager.go: the manager of the device's certificate and private key.
pub mod RoundTrip
pub mod Errors
pub mod Plain
mod Tests
use flotta_device_worker_ng.Base.{
  Bool, true, false, Option, none, some, if◌then◌else◌, Bytes, codes, str_eq, insert, List,
}

pub record Block : Type 0 where
  pub type : Bytes
  pub bytes : Bytes

-- `x509.Certificate`: the fields that the program reads.
pub record X509 : Type 0 where
  pub raw : Bytes
  pub signature : Bytes
  pub common_name : Bytes

-- The values of `crypto.PrivateKey` that occur: `*ecdsa.PrivateKey` and `*rsa.PrivateKey`.
pub data PrivateKey : Type 0 where
  ecdsa rsa : Bytes → PrivateKey

-- The packages pem, x509, ecdsa and rsa; `none` is an error, and the nil block of `pem.Decode`. What
-- the random source gives to a generated key or to a request is the first argument.
pub record Crypto : Type 0 where
  pub decode : Bytes → Option Block
  pub encode : Block → Bytes
  pub parse_certificate : Bytes → Option X509
  pub parse_ec : Bytes → Option Bytes
  pub parse_rsa : Bytes → Option Bytes
  pub marshal_ec : Bytes → Bytes
  pub marshal_rsa : Bytes → Bytes
  pub generate_ec : Bytes → Option Bytes
  pub generate_rsa : Bytes → Option Bytes
  pub create_request : Bytes → Bytes → PrivateKey → Option Bytes

-- The field `csrKey` is never used.
pub record Manager : Type 0 where
  pub cert : X509
  pub private_key : PrivateKey
  pub private_key_type : Bytes

pub data CertificateError : Type 0 where
  no_certificate bad_certificate no_key bad_key : CertificateError

abbrev pub ec_private_key : Bytes
ec_private_key = codes "EC PRIVATE KEY"

abbrev pub rsa_private_key : Bytes
rsa_private_key = codes "RSA PRIVATE KEY"

abbrev pub as_ecdsa : Option Bytes → Option PrivateKey
as_ecdsa none = none
as_ecdsa (some k) = some (ecdsa k)

abbrev pub as_rsa : Option Bytes → Option PrivateKey
as_rsa none = none
as_rsa (some k) = some (rsa k)

-- The files by their paths.
abbrev pub Files : Type 0
Files = List (Bytes × Bytes)

module _ (c : Crypto) where
  unfoldable pub parse_key : Block → Option PrivateKey
  parse_key b =
      if str_eq b.type ec_private_key
      then as_ecdsa (c.parse_ec b.bytes)
      else if str_eq b.type rsa_private_key
      then as_rsa (c.parse_rsa b.bytes)
      else none

  abbrev pub set_parsed :
      X509 → Block → Option PrivateKey → Option Manager → Option CertificateError × Option Manager
  set_parsed cert block none m = (some bad_key, m)
  set_parsed cert block (some key) m =
      (none, some (record { cert = cert; private_key = key; private_key_type = block.type }))

  abbrev pub set_key :
      X509 → Option Block → Option Manager → Option CertificateError × Option Manager
  set_key cert none m = (some no_key, m)
  set_key cert (some block) m = set_parsed cert block (parse_key block) m

  abbrev pub set_x509 :
      Option X509 → Bytes → Option Manager → Option CertificateError × Option Manager
  set_x509 none private_key m = (some bad_certificate, m)
  set_x509 (some cert) private_key m = set_key cert (c.decode private_key) m

  abbrev pub set_block :
      Option Block → Bytes → Option Manager → Option CertificateError × Option Manager
  set_block none private_key m = (some no_certificate, m)
  set_block (some b) private_key m = set_x509 (c.parse_certificate b.bytes) private_key m

  -- `SetCertificate`; the manager is `none` while `New` makes it.
  unfoldable pub set_certificate :
      Bytes → Bytes → Option Manager → Option CertificateError × Option Manager
  set_certificate cert private_key m = set_block (c.decode cert) private_key m

  abbrev pub made : Option CertificateError × Option Manager → Option Manager
  made (none, m) = m
  made (some e, m) = none

  -- `New`, with the certificates of the system's pool at hand; `none` is an error.
  unfoldable pub new : Bytes → Bytes → Option Manager
  new cert private_key = made (set_certificate cert private_key none)

  -- `marshalKeyToPem`.
  unfoldable pub marshal_key_to_pem : PrivateKey → Bytes
  marshal_key_to_pem (ecdsa k) = c.encode (record { type = ec_private_key; bytes = c.marshal_ec k })
  marshal_key_to_pem (rsa k) = c.encode (record { type = rsa_private_key; bytes = c.marshal_rsa k })

  -- `generateKey`.
  unfoldable pub generate_key : Bytes → Bytes → Option PrivateKey
  generate_key random key_type =
      if str_eq key_type ec_private_key
      then as_ecdsa (c.generate_ec random)
      else if str_eq key_type rsa_private_key
      then as_rsa (c.generate_rsa random)
      else none

  abbrev pub request_of : Option Bytes → PrivateKey → Option (Bytes × Bytes)
  request_of none key = none
  request_of (some r) key =
      some (
        c.encode (record { type = codes "CERTIFICATE REQUEST"; bytes = r }),
        marshal_key_to_pem key,
      )

  abbrev pub request_with : Bytes → Bytes → Option PrivateKey → Option (Bytes × Bytes)
  request_with random device_id none = none
  request_with random device_id (some key) = request_of (c.create_request random device_id key) key

  -- `GenerateCSR`: the request and the key behind it, as texts.
  unfoldable pub generate_csr : Bytes → Bytes → Manager → Option (Bytes × Bytes)
  generate_csr random device_id m =
      request_with random device_id (generate_key random m.private_key_type)

  -- `WriteCertificate`: `create` and `write` are whether `os.Create` and `WriteFile` return no error,
  -- and a call that does leaves the files as they were. The answer is whether there is no error.
  unfoldable pub write_certificate : Bool → Bool → Bytes → Bytes → Manager → Files → Bool × Files
  write_certificate create write cert_path key_path m fs =
      let cert_text = c.encode (record { type = codes "CERTIFICATE"; bytes = m.cert.raw }) in
      let fs1 = insert cert_path cert_text fs in
      if create
      then if write
        then (true, insert key_path (marshal_key_to_pem m.private_key) fs1)
        else (false, fs1)
      else (false, fs)
