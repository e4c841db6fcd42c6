-- ===== src/Edge/Loop/Period.antt =====
-- A period that the ticker does not take.
use flotta_device_worker_ng.Base.{
  ℕ, ◌≤◌, ◌<◌, ◌≡◌, ◌⊎◌, inl, inr, refl, sym, ap, ◌∙◌, subst, true, false, List, [], ◌∷◌, Bool,
  Option, none, some, if◌then◌else◌, ◌==◌, Bytes, arith,
}
use flotta_device_worker_ng.Interpreter.Float.{Float32}
use flotta_device_worker_ng.Entity.State.{JobState}
use flotta_device_worker_ng.Entity.Configuration.{DeviceConfigurationMessage, Format}
use flotta_device_worker_ng.Certificate.{Crypto}
use flotta_device_worker_ng.Configuration.Manager.{heartbeat}
use flotta_device_worker_ng.Client.Models
use flotta_device_worker_ng.Client.Models.{DeviceConfiguration, HeartbeatConfiguration}
use flotta_device_worker_ng.Client.Mapper.{
  duration_of, configuration_of, message_of, configuration_model2entity,
  configuration_model2entity-some,
}
use flotta_device_worker_ng.Edge.Interface.{Error, ok, Client}
use flotta_device_worker_ng.Edge.Controller.{
  empty, full, Status, going, broken, Settings, Event, operated, quiet, period_of, heartbeat_with,
  adopt, send_period, configuration_with, get_configuration,
}
use flotta_device_worker_ng.Edge.Loop.{
  State, is_positive, unless_broken, then_both, waited, on_op, on_configuration, Step, Run,
}

-- A number of seconds whose duration is not positive.
abbrev pub IsBad : ℕ → Type 0
IsBad s = (s ≡ 0) ⊎ ((9223372036 < s) × (s ≤ 18446744073))

IsBad-duration_of : (s : ℕ) → IsBad s → is_positive (duration_of s) ≡ false
unfolding duration_of
IsBad-duration_of s (inl e) = ground (arith, e)
IsBad-duration_of s (inr (g, h)) = ground arith

module _ {W : Type 0} (crypto : Crypto) (fl : Float32) (fmt : Format) (client : Client W)
    (settings : Settings) where
  abbrev C : Type 0
  C = State crypto fl fmt client settings

  -- The state behind an operation that takes over a configuration with a new period.
  abbrev operated_on : DeviceConfigurationMessage → W → C → C
  operated_on e w s =
      adopt crypto fl fmt client settings e
        (record s { op = empty; world = w; configuration = some (period_of e) })

  get_configuration_new :
      (s : C) (e : DeviceConfigurationMessage) (w' : W)
      → s.configuration ≡ none
      → client.get_configuration s.certs settings.device_id s.world ≡ (ok e, w')
      → (period_of e == period_of s.conf.conf) ≡ false
      → get_configuration crypto fl fmt client settings s ≡ (
        none,
        adopt crypto fl fmt client settings e
            (record s { world = w'; configuration = some (period_of e) }),
      )
  get_configuration_new s e w' c a d =
      let s' : C = record s { world = w' } in
      let sent = send_period crypto fl fmt client settings (period_of e) e in
      ap (λ r. configuration_with crypto fl fmt client settings r s) a
      ∙ ap
          (λ b.
            (none, if b then adopt crypto fl fmt client settings e s' else sent s.configuration s'))
          d
      ∙ ap (λ o. (none, sent o s')) c

  on_op_new :
      (reader : Option (List (Bytes × JobState))) (s : C) (e : DeviceConfigurationMessage)
      (w w' : W)
      → s.status ≡ going
      → s.configuration ≡ none
      → client.heartbeat s.certs settings.device_id (heartbeat reader s.conf) s.world ≡ (ok tt, w)
      → client.get_configuration s.certs settings.device_id w ≡ (ok e, w')
      → (period_of e == period_of s.conf.conf) ≡ false
      → on_op crypto fl fmt client settings reader true s ≡ (operated, operated_on e w' s)
  unfolding on_op
  on_op_new reader s e w w' g c a b d =
      let s0 : C = record s { op = empty } in
      let s1 : C = record s0 { world = w } in
      let get = get_configuration crypto fl fmt client settings in
      let alive = λ (st : Status) (r : Option Error × C).
        unless_broken crypto fl fmt client settings st r s1 in
      ap
        (λ r.
          (let (x, t) = then_both crypto fl fmt client settings r get in
            (operated, waited crypto fl fmt client settings t.status x t)))
        (ap (λ r. heartbeat_with crypto fl fmt client settings r s0) a)
      ∙ ap
          (λ st. (
            operated,
            waited crypto fl fmt client settings (alive st (get s1)).1.status (alive st (get s1)).0
                (alive st (get s1)).1,
          ))
          g
      ∙ ap
          (λ (r : Option Error × C).
            (operated, waited crypto fl fmt client settings r.1.status r.0 r.1))
          (get_configuration_new s1 e w' c b d)
      ∙ ap (λ st. (operated, waited crypto fl fmt client settings st none (operated_on e w' s))) g

  reset_breaks :
      (p : ℕ) (s : C)
      → is_positive p ≡ false
      → on_configuration crypto fl fmt client settings p s
        ≡ (quiet, record s { configuration = none; status = broken })
  unfolding on_configuration
  reset_breaks p s e = rw e refl

  panics_at :
      (reader : Option (List (Bytes × JobState))) (s : C) (e : DeviceConfigurationMessage)
      (w w' : W)
      → s.status ≡ going
      → s.op ≡ full
      → s.configuration ≡ none
      → client.heartbeat s.certs settings.device_id (heartbeat reader s.conf) s.world ≡ (ok tt, w)
      → client.get_configuration s.certs settings.device_id w ≡ (ok e, w')
      → is_positive (period_of s.conf.conf) ≡ true
      → is_positive (period_of e) ≡ false
      → (t : C) × Run crypto fl fmt client settings (operated ∷ (quiet ∷ [])) s t
        × (t.status ≡ broken)
  panics_at reader s e w w' g f c a b pos bad =
      let s2 : C = operated_on e w' s in
      let t : C = record s2 { configuration = none; status = broken } in
      let apart : (period_of e == period_of s.conf.conf) ≡ false = ground (arith, pos, bad) in
      let step_to = λ (s : C) (r : Event × C). Step crypto fl fmt client settings r.0 s r.1 in
      (
        t,
        Run.next
            (subst (step_to s) (on_op_new reader s e w w' g c a b apart)
              (Step.op reader true s g f))
            (Run.next
              (subst (step_to s2) (reset_breaks (period_of e) s2 bad)
                (Step.configuration (period_of e) s2 g refl))
              (Run.stop t)),
        refl,
      )

  -- A message of the operator whose period is 0 seconds, or more than 9223372036 and at most 18446744073,
  -- makes the program panic: from a state in which the loop goes on and operates at a positive period,
  -- with no new period at hand, an operation whose heartbeat succeeds and that gets this message leads to
  -- a reset of the ticker that panics.
  pub period_panics :
      (reader : Option (List (Bytes × JobState))) (s : C) (m : Models.DeviceConfigurationMessage)
      (c : DeviceConfiguration) (h : HeartbeatConfiguration) (include : Bool)
      (e : DeviceConfigurationMessage) (w w' : W)
      → m.configuration ≡ some c
      → c.heartbeat ≡ some h
      → h.include ≡ some include
      → IsBad h.period_seconds
      → configuration_model2entity m ≡ some e
      → s.status ≡ going
      → s.op ≡ full
      → s.configuration ≡ none
      → is_positive (period_of s.conf.conf) ≡ true
      → client.heartbeat s.certs settings.device_id (heartbeat reader s.conf) s.world ≡ (ok tt, w)
      → client.get_configuration s.certs settings.device_id w ≡ (ok e, w')
      → (t : C) × Run crypto fl fmt client settings (operated ∷ (quiet ∷ [])) s t
        × (t.status ≡ broken)
  period_panics reader s m c h include e w w' p q r bad made g f n pos a b =
      let e' = message_of m (configuration_of include h c.profiles) in
      let same : e' ≡ e = cc (configuration_model2entity-some m p q r, made) in
      let worse : is_positive (period_of e) ≡ false =
        ap (λ x. is_positive (period_of x)) (sym same) ∙ IsBad-duration_of h.period_seconds bad in
      panics_at reader s e w w' g f n a b pos worse
