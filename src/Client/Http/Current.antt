-- ===== src/Client/Http/Current.antt =====
-- The transport of a request has the certificate that the manager has.
use flotta_device_worker_ng.Base.{
  ◌≡◌, ◌≢◌, refl, sym, ◌∙◌, subst, Bool, true, false, not, [], Option, none, some, if◌then◌else◌,
  Bytes, str_eq, str_eq_iff,
}
use flotta_device_worker_ng.Certificate.{Manager}
use flotta_device_worker_ng.Client.Http.{
  Transport, Client, Web, create_transport, renewed, get_client,
}

-- What the client notes is the signature of its transport's certificate; without a transport it notes
-- the empty one.
abbrev Noted : Bytes → Option Transport → Type 0
Noted signature none = signature ≡ []
Noted signature (some t) = t.cert.signature ≡ signature

abbrev pub IsMatched : Client → Type 0
IsMatched c = Noted c.certificate_signature c.transport

-- A transport is at hand, whose certificate has the signature of the manager's.
abbrev pub IsCurrent : Manager → Option Transport → Type 0
IsCurrent m o = (t : Transport) × (o ≡ some t) × (t.cert.signature ≡ m.cert.signature)

held-IsCurrent :
    (m : Manager) (signature : Bytes) (o : Option Transport)
    → Noted signature o
    → signature ≡ m.cert.signature
    → m.cert.signature ≢ []
    → IsCurrent m o
held-IsCurrent m signature none n e h = absurd (h (sym e ∙ n))
held-IsCurrent m signature (some t) n e h = (t, refl, n ∙ e)

abbrev Good : Manager → Option (Option Transport) × Client → Type 0
Good m (none, c) = IsMatched c
Good m (some o, c) = IsMatched c × IsCurrent m o

module _ {V W : Type 0} (web : Web V W) where
  renewed-Good :
      (m : Manager) (c : Client) (b : Bool)
      → IsMatched c
      → Good m (
          renewed web m c
            (if b then some (record { cert = m.cert; key = m.private_key }) else none))
  renewed-Good m c true n =
      let t : Transport = record { cert = m.cert; key = m.private_key } in (refl, (t, refl, refl))
  renewed-Good m c false n = n

  get_client-Good :
      (m : Manager) (c : Client) (b : Bool)
      → str_eq c.certificate_signature m.cert.signature ≡ b
      → IsMatched c
      → m.cert.signature ≢ []
      → Good m (if not b then renewed web m c (create_transport web m) else (some c.transport, c))
  unfolding create_transport
  get_client-Good m c true e n h =
      let same = (str_eq_iff c.certificate_signature m.cert.signature).0 e in
      (n, held-IsCurrent m c.certificate_signature c.transport n same h)
  get_client-Good m c false e n h = renewed-Good m c (web.key_pair m.cert m.private_key) n

  -- A client that notes the signature of its transport's certificate still does so behind `getClient`,
  -- and where that returns no error, the transport that it returns is one whose certificate has the
  -- signature of the manager's certificate as it is then, if that signature is not empty.
  pub get_client-IsCurrent :
      (m : Manager) (c c' : Client) (o : Option Transport)
      → IsMatched c
      → m.cert.signature ≢ []
      → get_client web m c ≡ (some o, c')
      → IsMatched c' × IsCurrent m o
  unfolding get_client
  get_client-IsCurrent m c c' o n h e =
      subst (Good m) e
        (get_client-Good m c (str_eq c.certificate_signature m.cert.signature) refl n h)
