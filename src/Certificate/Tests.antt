-- ===== src/Certificate/Tests.antt =====
-- Certificates at concrete inputs, over packages that keep texts as they are.
use flotta_device_worker_ng.Base.{◌≡◌, refl, true, [], none, some, codes, str_eq}
use flotta_device_worker_ng.Certificate.{set_certificate, parse_key, new, write_certificate}
use flotta_device_worker_ng.Certificate.Plain.{plain, plain-IsLawful, signed, device_key, device}
use flotta_device_worker_ng.Certificate.RoundTrip.{read_file, new-write_certificate}

taken_over : set_certificate plain signed device_key none ≡ (none, some device)
unfolding set_certificate parse_key str_eq
taken_over = refl

new-write_certificate_example :
    new plain
      (read_file
        (codes "cert.pem")
        (write_certificate plain true true (codes "cert.pem") (codes "key.pem") device []).1)
      (read_file
        (codes "key.pem")
        (write_certificate plain true true (codes "cert.pem") (codes "key.pem") device []).1)
    ≡ some device
unfolding str_eq
new-write_certificate_example =
    new-write_certificate plain plain-IsLawful signed device_key none device (codes "cert.pem")
      (codes "key.pem") [] taken_over refl
