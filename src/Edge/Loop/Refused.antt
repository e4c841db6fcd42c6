-- ===== src/Edge/Loop/Refused.antt =====
-- A registration whose certificate is refused.
use flotta_device_worker_ng.Base.{◌≡◌, ap, ◌∙◌, true, Option, some, Bytes, codes}
use flotta_device_worker_ng.Interpreter.Float.{Float32}
use flotta_device_worker_ng.Entity.Configuration.{Format}
use flotta_device_worker_ng.Certificate
use flotta_device_worker_ng.Certificate.{
  Crypto, CertificateError, Block, X509, PrivateKey, set_parsed, set_key, set_x509, set_block,
  parse_key, set_certificate, generate_csr, write_certificate,
}
use flotta_device_worker_ng.Certificate.Errors.{set_certificate_keeps}
use flotta_device_worker_ng.Edge.Interface.{ok, Client}
use flotta_device_worker_ng.Edge.Controller.{
  nil, Settings, registered, written_with, manager_or, registered_with, request_registration,
  on_register,
}
use flotta_device_worker_ng.Edge.Loop.{State}

module _ {W : Type 0} (crypto : Crypto) (fl : Float32) (fmt : Format) (client : Client W)
    (settings : Settings) where
  -- A certificate that `SetCertificate` refuses registers the device all the same, if the files can be
  -- written: the certificate manager stays as it was, its old certificate and key are written, and the
  -- registration is not tried again.
  pub register_refused :
      (random : Bytes) (s : State crypto fl fmt client settings) (csr key signed : Bytes) (w : W)
      (e : CertificateError) (m' : Option Certificate.Manager)
      → generate_csr crypto random (codes "deviceID") s.certs ≡ some (csr, key)
      → client.register s.certs settings.device_id
          (record { certificate_request = csr; hardware = s.conf.hardware })
          s.world
        ≡ (ok signed, w)
      → set_certificate crypto signed key (some s.certs) ≡ (some e, m')
      → on_register crypto fl fmt client settings random true true s ≡ (
        registered,
        record s {
          register = nil;
          files =
              (write_certificate crypto true true settings.certificate_file settings.private_key
                s.certs s.files).1;
          world = w;
        },
      )
  unfolding on_register write_certificate
  register_refused random s csr key signed w e m' g r h =
      let kept = set_certificate_keeps crypto signed key s.certs e m' h in
      let same : (set_certificate crypto signed key (some s.certs)).1 ≡ some s.certs =
        ap (λ (t : Option CertificateError × Option Certificate.Manager). t.1) h ∙ kept in
      ap (λ o. request_registration crypto fl fmt client settings true true o s) g
      ∙ ap (λ a. registered_with crypto fl fmt client settings true true key a s) r
      ∙ ap
          (λ o.
            written_with crypto fl fmt client settings (manager_or s.certs o)
              (write_certificate crypto true true settings.certificate_file settings.private_key
                (manager_or s.certs o) s.files)
              w s)
          same
