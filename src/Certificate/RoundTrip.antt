-- ===== src/Certificate/RoundTrip.antt =====
-- What `SetCertificate` takes over and `WriteCertificate` writes is read back by `New`.
use flotta_device_worker_ng.Base.{
  ◌≡◌, refl, ap, sym, ◌∙◌, subst, true, false, [], Option, none, some, Bytes, codes, str_eq,
  str_eq_refl, str_eq_iff, lookup, insert, lookup-insert, arith,
}
use flotta_device_worker_ng.Certificate.{
  Block, X509, PrivateKey, ecdsa, rsa, Crypto, Manager, CertificateError, ec_private_key,
  rsa_private_key, as_ecdsa, as_rsa, parse_key, set_parsed, set_key, set_x509, set_block,
  set_certificate, made, new, marshal_key_to_pem, write_certificate, Files,
}

-- A block is decoded from its text, a key is parsed from its marshalled form, and a certificate keeps
-- the bytes that it is parsed from.
pub record IsLawful (c : Crypto) : Type 0 where
  pub decode-encode : (b : Block) → c.decode (c.encode b) ≡ some b
  pub parse-marshal_ec : (k : Bytes) → c.parse_ec (c.marshal_ec k) ≡ some k
  pub parse-marshal_rsa : (k : Bytes) → c.parse_rsa (c.marshal_rsa k) ≡ some k
  pub parse_raw : (b : Bytes) (x : X509) → c.parse_certificate b ≡ some x → x.raw ≡ b

abbrev pub key_type : PrivateKey → Bytes
key_type (ecdsa k) = ec_private_key
key_type (rsa k) = rsa_private_key

-- A manager whose certificate is parsed from its bytes and whose key is of the type that it notes.
pub record IsKept (c : Crypto) (m : Manager) : Type 0 where
  pub parsed : c.parse_certificate m.cert.raw ≡ some m.cert
  pub typed : m.private_key_type ≡ key_type m.private_key

-- What a text of the files holds; a file that is missing reads as the empty text.
abbrev pub text_or : Option Bytes → Bytes
text_or none = []
text_or (some s) = s

abbrev pub read_file : Bytes → Files → Bytes
read_file path fs = text_or (lookup path fs)

as_ecdsa-key_type :
    (o : Option Bytes) (k : PrivateKey) → as_ecdsa o ≡ some k → ec_private_key ≡ key_type k
as_ecdsa-key_type none (ecdsa t) e = refl
as_ecdsa-key_type none (rsa t) e = cc
as_ecdsa-key_type (some t) (ecdsa u) e = refl
as_ecdsa-key_type (some t) (rsa u) e = cc

as_rsa-key_type :
    (o : Option Bytes) (k : PrivateKey) → as_rsa o ≡ some k → rsa_private_key ≡ key_type k
as_rsa-key_type none (ecdsa t) e = cc
as_rsa-key_type none (rsa t) e = refl
as_rsa-key_type (some t) (ecdsa u) e = cc
as_rsa-key_type (some t) (rsa u) e = refl

module _ (c : Crypto) where
  parse_key-typed : (b : Block) (k : PrivateKey) → parse_key c b ≡ some k → b.type ≡ key_type k
  unfolding parse_key
  parse_key-typed b k e = ground (
    arith,
    e,
    str_eq_iff b.type ec_private_key,
    str_eq_iff b.type rsa_private_key,
    as_ecdsa-key_type (c.parse_ec b.bytes) k,
    as_rsa-key_type (c.parse_rsa b.bytes) k,
  )

  set_parsed-IsKept :
      (x : X509) (b : Block) (o : Option PrivateKey) (m : Option Manager) (m' : Manager)
      → c.parse_certificate x.raw ≡ some x
      → parse_key c b ≡ o
      → set_parsed c x b o m ≡ (none, some m')
      → IsKept c m'
  set_parsed-IsKept x b none m m' p q e = cc
  set_parsed-IsKept x b (some k) m m' p q e =
      let m0 : Manager = record { cert = x; private_key = k; private_key_type = b.type } in
      let same : m0 ≡ m' = cc (ap (λ (t : Option CertificateError × Option Manager). t.1) e) in
      subst (IsKept c) same (record { parsed = p; typed = parse_key-typed b k q })

  module _ (l : IsLawful c) where
    set_key-IsKept :
        (x : X509) (o : Option Block) (m : Option Manager) (m' : Manager)
        → c.parse_certificate x.raw ≡ some x
        → set_key c x o m ≡ (none, some m')
        → IsKept c m'
    set_key-IsKept x none m m' p e = cc
    set_key-IsKept x (some b) m m' p e = set_parsed-IsKept x b (parse_key c b) m m' p refl e

    set_x509-IsKept :
        (b : Bytes) (o : Option X509) (key : Bytes) (m : Option Manager) (m' : Manager)
        → c.parse_certificate b ≡ o
        → set_x509 c o key m ≡ (none, some m')
        → IsKept c m'
    set_x509-IsKept b none key m m' p e = cc
    set_x509-IsKept b (some x) key m m' p e =
        let q : c.parse_certificate x.raw ≡ some x =
          ap c.parse_certificate (l.parse_raw b x p) ∙ p in
        set_key-IsKept x (c.decode key) m m' q e

    set_block-IsKept :
        (o : Option Block) (key : Bytes) (m : Option Manager) (m' : Manager)
        → set_block c o key m ≡ (none, some m')
        → IsKept c m'
    set_block-IsKept none key m m' e = cc
    set_block-IsKept (some b) key m m' e =
        set_x509-IsKept b.bytes (c.parse_certificate b.bytes) key m m' refl e

    pub set_certificate-IsKept :
        (cert key : Bytes) (m : Option Manager) (m' : Manager)
        → set_certificate c cert key m ≡ (none, some m')
        → IsKept c m'
    unfolding set_certificate
    set_certificate-IsKept cert key m m' e = set_block-IsKept (c.decode cert) key m m' e

    parse-marshal :
        (k : PrivateKey)
        → (b : Block) × (c.decode (marshal_key_to_pem c k) ≡ some b)
          × (b.type ≡ key_type k)
          × (parse_key c b ≡ some k)
    unfolding marshal_key_to_pem parse_key str_eq
    parse-marshal (ecdsa t) =
        let b : Block = record { type = ec_private_key; bytes = c.marshal_ec t } in
        (b, l.decode-encode b, refl, ap as_ecdsa (l.parse-marshal_ec t))
    parse-marshal (rsa t) =
        let b : Block = record { type = rsa_private_key; bytes = c.marshal_rsa t } in
        (b, l.decode-encode b, refl, ap as_rsa (l.parse-marshal_rsa t))

    new_reads :
        (m : Manager)
        → IsKept c m
        → new c
            (c.encode (record { type = codes "CERTIFICATE"; bytes = m.cert.raw }))
            (marshal_key_to_pem c m.private_key)
          ≡ some m
    unfolding new set_certificate
    new_reads m k =
        let (b, d, t, p) = parse-marshal m.private_key in
        let cert : Block = record { type = codes "CERTIFICATE"; bytes = m.cert.raw } in
        let key = marshal_key_to_pem c m.private_key in
        ap (λ o. made c (set_block c o key none)) (l.decode-encode cert)
        ∙ ap (λ o. made c (set_x509 c o key none)) k.parsed
        ∙ ap (λ o. made c (set_key c m.cert o none)) d
        ∙ ap (λ o. made c (set_parsed c m.cert b o none)) p
        ∙ ap
            (λ s.
              some (record { cert = m.cert; private_key = m.private_key; private_key_type = s }))
            (t ∙ sym k.typed)

    -- A certificate and a key that `SetCertificate` takes over without an error, written by
    -- `WriteCertificate` to two different paths without an error, are read back: a manager that `New`
    -- makes of the two files is the one that wrote them. This holds of packages whose decoders read
    -- what their encoders write.
    pub new-write_certificate :
        (cert key : Bytes) (m : Option Manager) (m' : Manager) (cert_path key_path : Bytes)
        (fs : Files)
        → set_certificate c cert key m ≡ (none, some m')
        → str_eq key_path cert_path ≡ false
        → new c
            (read_file cert_path (write_certificate c true true cert_path key_path m' fs).1)
            (read_file key_path (write_certificate c true true cert_path key_path m' fs).1)
          ≡ some m'
    unfolding write_certificate
    new-write_certificate cert key m m' cert_path key_path fs e ne =
        let k = set_certificate-IsKept cert key m m' e in
        let cert_text = c.encode (record { type = codes "CERTIFICATE"; bytes = m'.cert.raw }) in
        let key_text = marshal_key_to_pem c m'.private_key in
        let fs1 = insert cert_path cert_text fs in
        let at_key : read_file key_path (insert key_path key_text fs1) ≡ key_text =
          rw (lookup-insert key_path key_path key_text fs1, str_eq_refl key_path) refl in
        let at_cert : read_file cert_path (insert key_path key_text fs1) ≡ cert_text =
          rw
            (
              lookup-insert key_path cert_path key_text fs1,
              ne,
              lookup-insert cert_path cert_path cert_text fs,
              str_eq_refl cert_path,
            )
            refl in
        rw (at_key, at_cert) (new_reads m' k)
