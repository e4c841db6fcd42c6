-- ===== src/Certificate/Plain.antt =====
-- Packages that keep texts as they are, for the tests.
use flotta_device_worker_ng.Base.{
  ◌≡◌, refl, ap, ap₂, [], ◌∷◌, ◌++◌, Option, none, some, Bytes, codes, length, take, drop,
}
use flotta_device_worker_ng.Certificate.{Block, ecdsa, Crypto, Manager}
use flotta_device_worker_ng.Certificate.RoundTrip.{IsLawful}

-- A block's text is the length of its type, the type and the bytes.
abbrev pub block_text : Block → Bytes
block_text b = length b.type ∷ (b.type ++ b.bytes)

abbrev pub block_of : Bytes → Option Block
block_of [] = none
block_of (n ∷ s) = some (record { type = take n s; bytes = drop n s })

abbrev pub plain : Crypto
plain = record {
  decode = block_of;
  encode = block_text;
  parse_certificate = λ b. some (record { raw = b; signature = b; common_name = [] });
  parse_ec = some;
  parse_rsa = some;
  marshal_ec = λ k. k;
  marshal_rsa = λ k. k;
  generate_ec = some;
  generate_rsa = some;
  create_request = λ random id key. some id;
}

pub take-length : (xs ys : Bytes) → take (length xs) (xs ++ ys) ≡ xs
take-length [] ys = refl
take-length (x ∷ xs) ys = ap (λ t. x ∷ t) (take-length xs ys)

drop-length : (xs ys : Bytes) → drop (length xs) (xs ++ ys) ≡ ys
drop-length [] ys = refl
drop-length (x ∷ xs) ys = drop-length xs ys

pub plain-IsLawful : IsLawful plain
plain-IsLawful = record {
  decode-encode = λ b.
      ap₂ (λ t s. some (record { type = t; bytes = s })) (take-length b.type b.bytes)
        (drop-length b.type b.bytes);
  parse-marshal_ec = λ k. refl;
  parse-marshal_rsa = λ k. refl;
  parse_raw = λ b x e. cc e;
}

abbrev pub signed : Bytes
signed = block_text (record { type = codes "CERTIFICATE"; bytes = codes "device" })

abbrev pub device_key : Bytes
device_key = block_text (record { type = codes "EC PRIVATE KEY"; bytes = codes "secret" })

abbrev pub device : Manager
device = record {
  cert = record { raw = codes "device"; signature = codes "device"; common_name = [] };
  private_key = ecdsa (codes "secret");
  private_key_type = codes "EC PRIVATE KEY";
}
