-- ===== src/Edge/Loop/Keeps.antt =====
-- What an operation of the controller leaves as it is.
use flotta_device_worker_ng.Base.{
  ℕ, ◌≡◌, refl, sym, ◌∙◌, Bool, true, false, List, Option, none, some, if◌then◌else◌, ◌==◌, Bytes,
  subst,
}
use flotta_device_worker_ng.Interpreter.Float.{Float32}
use flotta_device_worker_ng.Entity.State.{JobState}
use flotta_device_worker_ng.Entity.Configuration.{DeviceConfigurationMessage, Format}
use flotta_device_worker_ng.Certificate.{Crypto}
use flotta_device_worker_ng.Edge.Interface.{
  Error, Answer, ok, failed, panicked, Client, is_unauthorized,
}
use flotta_device_worker_ng.Edge.Controller.{
  empty, Status, going, blocked, broken, Settings, period_of, heartbeat_with, send_heartbeat,
  configuration_with, get_configuration, take_configuration, send_period, adopt, on_error,
}
use flotta_device_worker_ng.Edge.Loop.{
  State, first_error, unless_broken, then_both, both, waited, on_op,
}

-- An error that is made by `fmt.Errorf`, if there is one.
abbrev pub IsWrapped : Option Error → Type 0
IsWrapped none = Unit {0}
IsWrapped (some e) = is_unauthorized e ≡ false

module _ {W : Type 0} (crypto : Crypto) (fl : Float32) (fmt : Format) (client : Client W)
    (settings : Settings) where
  abbrev C : Type 0
  C = State crypto fl fmt client settings

  -- The channels stay as they are.
  pub record Keeps (s t : C) : Type 0 where
    pub enrol : t.enrol ≡ s.enrol
    pub register : t.register ≡ s.register
    pub op : t.op ≡ s.op

  Keeps-trans : {s t u : C} → Keeps s t → Keeps t u → Keeps s u
  Keeps-trans k l = record {
    enrol = l.enrol ∙ k.enrol;
    register = l.register ∙ k.register;
    op = l.op ∙ k.op;
  }

  abbrev itself : (s : C) → Keeps s s
  itself s = record { enrol = refl; register = refl; op = refl }

  -- What a goroutine leaves: the channels, and an error that is wrapped.
  abbrev Quiet : C → Option Error × C → Type 0
  Quiet s r = IsWrapped r.0 × Keeps s r.1

  heartbeat_with-Quiet :
      (a : Answer Unit × W) (s : C) → Quiet s (heartbeat_with crypto fl fmt client settings a s)
  heartbeat_with-Quiet (ok u, w) s = (tt, record { enrol = refl; register = refl; op = refl })
  heartbeat_with-Quiet (failed e, w) s = (refl, record { enrol = refl; register = refl; op = refl })
  heartbeat_with-Quiet (panicked, w) s = (tt, record { enrol = refl; register = refl; op = refl })

  send_period-Keeps :
      (p : ℕ) (m : DeviceConfigurationMessage) (o : Option ℕ) (s : C)
      → Keeps s (send_period crypto fl fmt client settings p m o s)
  send_period-Keeps p m none s = record { enrol = refl; register = refl; op = refl }
  send_period-Keeps p m (some q) s = record { enrol = refl; register = refl; op = refl }

  if-Keeps : (b : Bool) (s t u : C) → Keeps s t → Keeps s u → Keeps s (if b then t else u)
  if-Keeps true s t u k l = k
  if-Keeps false s t u k l = l

  take_configuration-Keeps :
      (m : DeviceConfigurationMessage) (s : C)
      → Keeps s (take_configuration crypto fl fmt client settings m s)
  take_configuration-Keeps m s =
      if-Keeps (period_of m == period_of s.conf.conf) s (adopt crypto fl fmt client settings m s)
        (send_period crypto fl fmt client settings (period_of m) m s.configuration s)
        (record { enrol = refl; register = refl; op = refl })
        (send_period-Keeps (period_of m) m s.configuration s)

  configuration_with-Quiet :
      (a : Answer DeviceConfigurationMessage × W) (s : C)
      → Quiet s (configuration_with crypto fl fmt client settings a s)
  configuration_with-Quiet (ok m, w) s =
      let k = take_configuration-Keeps m (record s { world = w }) in
      (tt, record { enrol = k.enrol; register = k.register; op = k.op })
  configuration_with-Quiet (failed e, w) s =
      (refl, record { enrol = refl; register = refl; op = refl })
  configuration_with-Quiet (panicked, w) s =
      (tt, record { enrol = refl; register = refl; op = refl })

  unless_broken-Quiet :
      (st : Status) (r : Option Error × C) (s : C)
      → Quiet s r
      → Quiet s (unless_broken crypto fl fmt client settings st r s)
  unless_broken-Quiet going r s q = q
  unless_broken-Quiet blocked r s q = q
  unless_broken-Quiet broken r s q = (tt, itself s)

  first_error-IsWrapped :
      (e f : Option Error) → IsWrapped e → IsWrapped f → IsWrapped (first_error e f)
  first_error-IsWrapped none f p q = q
  first_error-IsWrapped (some e) f p q = p

  then_both-Quiet :
      (s : C) (r : Option Error × C) (g : C → Option Error × C)
      → Quiet s r
      → ((t : C) → Quiet t (g t))
      → Quiet s (then_both crypto fl fmt client settings r g)
  then_both-Quiet s (e, t) g q h =
      let r = unless_broken-Quiet t.status (g t) t (h t) in
      (first_error-IsWrapped e _ q.0 r.0, Keeps-trans q.1 r.1)

  both-Quiet :
      (reader : Option (List (Bytes × JobState))) (first : Bool) (s : C)
      → Quiet s (both crypto fl fmt client settings reader first s)
  both-Quiet reader true s =
      then_both-Quiet s (send_heartbeat crypto fl fmt client settings reader s)
        (get_configuration crypto fl fmt client settings) (heartbeat_with-Quiet _ s)
        (λ t. configuration_with-Quiet _ t)
  both-Quiet reader false s =
      then_both-Quiet s (get_configuration crypto fl fmt client settings s)
        (send_heartbeat crypto fl fmt client settings reader) (configuration_with-Quiet _ s)
        (λ t. heartbeat_with-Quiet _ t)

  on_error-Keeps :
      (e : Option Error) (s : C)
      → IsWrapped e
      → Keeps s (on_error crypto fl fmt client settings e s)
  on_error-Keeps none s p = itself s
  on_error-Keeps (some e) s p =
      subst (λ b. Keeps s (if b then record s { enrol = empty } else s)) (sym p) (itself s)

  waited-Keeps :
      (st : Status) (e : Option Error) (s : C)
      → IsWrapped e
      → Keeps s (waited crypto fl fmt client settings st e s)
  waited-Keeps going e s p = on_error-Keeps e s p
  waited-Keeps blocked e s p = itself s
  waited-Keeps broken e s p = itself s

  -- An operation takes its message and leaves the channels of the enrolment and the registration,
  -- whatever the errors of the client.
  pub on_op-Keeps :
      (reader : Option (List (Bytes × JobState))) (first : Bool) (s : C)
      → Keeps (record s { op = empty }) (on_op crypto fl fmt client settings reader first s).1
  unfolding on_op
  on_op-Keeps reader first s =
      let s0 : C = record s { op = empty } in
      let r = both crypto fl fmt client settings reader first s0 in
      let q = both-Quiet reader first s0 in Keeps-trans q.1 (waited-Keeps r.1.status r.0 r.1 q.0)
