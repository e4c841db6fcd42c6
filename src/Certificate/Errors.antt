-- ===== src/Certificate/Errors.antt =====
-- What `SetCertificate` leaves where it returns an error.
use flotta_device_worker_ng.Base.{◌≡◌, Option, none, some, Bytes}
use flotta_device_worker_ng.Certificate.{
  Crypto, Manager, CertificateError, Block, X509, PrivateKey, set_parsed, set_key, set_x509,
  set_block, parse_key, set_certificate,
}

module _ (c : Crypto) where
  set_parsed_keeps :
      (x : X509) (b : Block) (o : Option PrivateKey) (m : Manager) (e : CertificateError)
      (m' : Option Manager)
      → set_parsed c x b o (some m) ≡ (some e, m')
      → m' ≡ some m
  set_parsed_keeps x b none m e m' h = cc h
  set_parsed_keeps x b (some k) m e m' h = cc h

  set_key_keeps :
      (x : X509) (o : Option Block) (m : Manager) (e : CertificateError) (m' : Option Manager)
      → set_key c x o (some m) ≡ (some e, m')
      → m' ≡ some m
  set_key_keeps x none m e m' h = cc h
  set_key_keeps x (some b) m e m' h = set_parsed_keeps x b (parse_key c b) m e m' h

  set_x509_keeps :
      (o : Option X509) (key : Bytes) (m : Manager) (e : CertificateError) (m' : Option Manager)
      → set_x509 c o key (some m) ≡ (some e, m')
      → m' ≡ some m
  set_x509_keeps none key m e m' h = cc h
  set_x509_keeps (some x) key m e m' h = set_key_keeps x (c.decode key) m e m' h

  set_block_keeps :
      (o : Option Block) (key : Bytes) (m : Manager) (e : CertificateError) (m' : Option Manager)
      → set_block c o key (some m) ≡ (some e, m')
      → m' ≡ some m
  set_block_keeps none key m e m' h = cc h
  set_block_keeps (some b) key m e m' h = set_x509_keeps (c.parse_certificate b.bytes) key m e m' h

  -- The manager stays as it was.
  pub set_certificate_keeps :
      (cert key : Bytes) (m : Manager) (e : CertificateError) (m' : Option Manager)
      → set_certificate c cert key (some m) ≡ (some e, m')
      → m' ≡ some m
  unfolding set_certificate
  set_certificate_keeps cert key m e m' h = set_block_keeps (c.decode cert) key m e m' h
