-- ===== src/Edge/Loop/Phases.antt =====
-- The order in which the controller enrols, registers and operates.
use flotta_device_worker_ng.Base.{
  ◌≡◌, ◌≢◌, refl, ap, ◌∙◌, Bool, true, false, List, [], ◌∷◌, Option, none, some, if◌then◌else◌,
  Bytes, arith,
}
use flotta_device_worker_ng.Interpreter.Float.{Float32}
use flotta_device_worker_ng.Entity.State.{JobState}
use flotta_device_worker_ng.Entity.Configuration.{Format}
use flotta_device_worker_ng.Certificate
use flotta_device_worker_ng.Certificate.{Crypto, Files, generate_csr}
use flotta_device_worker_ng.Configuration.Manager
use flotta_device_worker_ng.Edge.Interface.{Answer, ok, failed, panicked, Client}
use flotta_device_worker_ng.Edge.Controller.{
  Channel, nil, empty, full, Settings, Event, enrolled, registered, operated, quiet, start,
  enrolled_with, on_enrol, written_with, registered_with, request_registration, on_register,
}
use flotta_device_worker_ng.Edge.Loop.{
  State, is_positive, on_op, on_configuration, tick_op, tick_register, tick_enrol, on_tick,
  on_shutdown, Step, Run,
}
use flotta_device_worker_ng.Edge.Loop.Keeps.{Keeps, on_op-Keeps}

pub data Phase : Type 0 where
  enrolling registering operating : Phase

-- The phase behind an event, where the event may come.
abbrev pub follow : Phase → Event → Option Phase
follow ph quiet = some ph
follow enrolling enrolled = some registering
follow registering registered = some operating
follow operating operated = some operating
follow ph e = none

abbrev pub follow_from : Option Phase → List Event → Bool
follow_from none es = false
follow_from (some ph) [] = true
follow_from (some ph) (e ∷ es) = follow_from (follow ph e) es

module _ {W : Type 0} (crypto : Crypto) (fl : Float32) (fmt : Format) (client : Client W)
    (settings : Settings) where
  abbrev C : Type 0
  C = State crypto fl fmt client settings

  -- What the channels are in a phase.
  abbrev pub InPhase : Phase → C → Type 0
  InPhase enrolling s = (s.enrol ≢ nil) × (s.register ≡ nil) × (s.op ≡ empty)
  InPhase registering s = (s.enrol ≡ nil) × (s.register ≢ nil) × (s.op ≡ empty)
  InPhase operating s = (s.enrol ≡ nil) × (s.register ≡ nil) × (s.op ≢ nil)

  abbrev Follows : Phase → Event × C → Type 0
  Follows ph r = (ph' : Phase) × (follow ph r.0 ≡ some ph') × InPhase ph' r.1

  enrolled_with-Follows :
      (a : Answer Unit × W) (s : C)
      → InPhase enrolling s
      → Follows enrolling (enrolled_with crypto fl fmt client settings a s)
  enrolled_with-Follows (ok u, w) s p = (registering, refl, (refl, ground arith, p.2))
  enrolled_with-Follows (failed e, w) s p = (enrolling, refl, (ground arith, p.1, p.2))
  enrolled_with-Follows (panicked, w) s p = (enrolling, refl, p)

  written_with-Follows :
      (m : Certificate.Manager) (r : Bool × Files) (w : W) (s : C)
      → InPhase registering s
      → Follows registering (written_with crypto fl fmt client settings m r w s)
  written_with-Follows m (true, fs) w s p = (operating, refl, (p.0, refl, ground (arith, p)))
  written_with-Follows m (false, fs) w s p = (registering, refl, (p.0, ground arith, p.2))

  registered_with-Follows :
      (create write : Bool) (key : Bytes) (a : Answer Bytes × W) (s : C)
      → InPhase registering s
      → Follows registering (registered_with crypto fl fmt client settings create write key a s)
  registered_with-Follows create write key (ok signed, w) s p = written_with-Follows _ _ w s p
  registered_with-Follows create write key (failed e, w) s p =
      (registering, refl, (p.0, ground arith, p.2))
  registered_with-Follows create write key (panicked, w) s p = (registering, refl, p)

  request_registration-Follows :
      (create write : Bool) (o : Option (Bytes × Bytes)) (s : C)
      → InPhase registering s
      → Follows registering (request_registration crypto fl fmt client settings create write o s)
  request_registration-Follows create write none s p = (registering, refl, (p.0, ground arith, p.2))
  request_registration-Follows create write (some (csr, key)) s p =
      registered_with-Follows create write key _ s p

  on_op-Follows :
      (reader : Option (List (Bytes × JobState))) (first : Bool) (s : C)
      → InPhase operating s
      → Follows operating (on_op crypto fl fmt client settings reader first s)
  unfolding on_op
  on_op-Follows reader first s p =
      let k = on_op-Keeps crypto fl fmt client settings reader first s in
      (operating, refl, (k.enrol ∙ p.0, k.register ∙ p.1, ground (arith, k.op)))

  Keeps-InPhase :
      (ph : Phase) {s t : C} → Keeps crypto fl fmt client settings s t → InPhase ph s → InPhase ph t
  Keeps-InPhase enrolling k p = ground (arith, k.enrol, k.register, k.op, p)
  Keeps-InPhase registering k p = ground (arith, k.enrol, k.register, k.op, p)
  Keeps-InPhase operating k p = ground (arith, k.enrol, k.register, k.op, p)

  if-Follows :
      (b : Bool) (ph : Phase) (t u : C)
      → InPhase ph t
      → InPhase ph u
      → Follows ph (if b then (quiet, t) else (quiet, u))
  if-Follows true ph t u p q = (ph, refl, p)
  if-Follows false ph t u p q = (ph, refl, q)

  tick_op-InPhase :
      (c : Channel) (s : C)
      → InPhase operating s
      → InPhase operating (tick_op crypto fl fmt client settings c s)
  tick_op-InPhase nil s p = p
  tick_op-InPhase empty s p = (p.0, p.1, ground arith)
  tick_op-InPhase full s p = p

  tick_register-InPhase :
      (ph : Phase) (c : Channel) (s : C)
      → s.register ≡ c
      → s.enrol ≡ nil
      → InPhase ph s
      → InPhase ph (tick_register crypto fl fmt client settings c s)
  tick_register-InPhase enrolling c s e n p = absurd (p.0 n)
  tick_register-InPhase registering nil s e n p = absurd (p.1 e)
  tick_register-InPhase registering empty s e n p = (p.0, ground arith, p.2)
  tick_register-InPhase registering full s e n p = p
  tick_register-InPhase operating nil s e n p = tick_op-InPhase s.op s p
  tick_register-InPhase operating empty s e n p = cc (e, p.1)
  tick_register-InPhase operating full s e n p = cc (e, p.1)

  tick_enrol-InPhase :
      (ph : Phase) (c : Channel) (s : C)
      → s.enrol ≡ c
      → InPhase ph s
      → InPhase ph (tick_enrol crypto fl fmt client settings c s)
  tick_enrol-InPhase ph nil s e p = tick_register-InPhase ph s.register s refl e p
  tick_enrol-InPhase enrolling empty s e p = (ground arith, p.1, p.2)
  tick_enrol-InPhase registering empty s e p = cc (e, p.0)
  tick_enrol-InPhase operating empty s e p = cc (e, p.0)
  tick_enrol-InPhase enrolling full s e p = p
  tick_enrol-InPhase registering full s e p = p
  tick_enrol-InPhase operating full s e p = p

  Step-Follows :
      (ph : Phase) {e : Event} {s t : C}
      → Step crypto fl fmt client settings e s t
      → InPhase ph s
      → Follows ph (e, t)
  unfolding on_enrol on_register on_configuration on_tick on_shutdown
  Step-Follows enrolling (Step.enrol s g e) p = enrolled_with-Follows _ s p
  Step-Follows registering (Step.enrol s g e) p = cc (e, p.0)
  Step-Follows operating (Step.enrol s g e) p = cc (e, p.0)
  Step-Follows enrolling (Step.register random create write s g e) p = cc (e, p.1)
  Step-Follows registering (Step.register random create write s g e) p =
      request_registration-Follows create write _ s p
  Step-Follows operating (Step.register random create write s g e) p = cc (e, p.1)
  Step-Follows enrolling (Step.op reader first s g e) p = cc (e, p.2)
  Step-Follows registering (Step.op reader first s g e) p = cc (e, p.2)
  Step-Follows operating (Step.op reader first s g e) p = on_op-Follows reader first s p
  Step-Follows ph (Step.configuration n s g e) p =
      if-Follows (is_positive n) ph _ _
        (Keeps-InPhase ph (record { enrol = refl; register = refl; op = refl }) p)
        (Keeps-InPhase ph (record { enrol = refl; register = refl; op = refl }) p)
  Step-Follows ph (Step.tick s g e) p = (ph, refl, tick_enrol-InPhase ph s.enrol s refl p)
  Step-Follows ph (Step.shutdown s g) p =
      (ph, refl, Keeps-InPhase ph (record { enrol = refl; register = refl; op = refl }) p)

  -- From a state in a phase the events of a run follow the order.
  pub run_follows :
      (ph : Phase) {es : List Event} {s t : C}
      → Run crypto fl fmt client settings es s t
      → InPhase ph s
      → follow_from (some ph) es ≡ true
  run_follows ph (Run.stop s) p = refl
  run_follows ph (Run.next {e} {es} st r) p =
      let (ph', f, q) = Step-Follows ph st p in ap (λ o. follow_from o es) f ∙ run_follows ph' r q

  pub run-InPhase :
      (ph : Phase) {es : List Event} {s t : C}
      → Run crypto fl fmt client settings es s t
      → InPhase ph s
      → (ph' : Phase) × InPhase ph' t
  run-InPhase ph (Run.stop s) p = (ph, p)
  run-InPhase ph (Run.next st r) p = let (ph', f, q) = Step-Follows ph st p in run-InPhase ph' r q

  -- In each run of the controller's loop, from its start, one enrolment succeeds, then one registration,
  -- and then there are operations only: no operation comes before both, and behind them the device is
  -- never enrolled or registered again, whatever the errors of the operations.
  pub run_in_order :
      (certs : Certificate.Manager) (conf : Manager.Manager) (files : Files) (world : W)
      {es : List Event} {t : C}
      → Run crypto fl fmt client settings es
          (start crypto fl fmt client settings certs conf files world)
          t
      → follow_from (some enrolling) es ≡ true
  run_in_order certs conf files world r = run_follows enrolling r (ground arith, refl, refl)
