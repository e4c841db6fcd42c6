-- ===== src/Profile/Manager/Faults.antt =====
-- Where the profile manager stops to follow the metrics.
use flotta_device_worker_ng.Base.{
  ◌≡◌, true, false, List, Option, none, some, Bool-cases, inl, inr, arith,
}
use flotta_device_worker_ng.Interpreter.Float.{Float32}
use flotta_device_worker_ng.Profile.Results.{ProfileEvaluationResult}
use flotta_device_worker_ng.Profile.Evaluator.{set_profiles, evaluate_all}
use flotta_device_worker_ng.Profile.Manager.{
  Manager, Payload, ask_evaluation, send_input, stop_server, start_server, sent, on_recv, on_input,
  on_metric, on_evaluate, Step, Run,
}

module _ (fl : Float32) where
  -- The manager has a server whose metrics it does not read.
  pub record IsDeaf (m : Manager fl) : Type 0 where
    pub server : m.metric_server ≡ true
    pub channel : m.metric_channel ≡ false
    pub done : m.done ≡ true

  recv-IsDeaf :
      (opt : Payload fl) (o : Option (Payload fl)) (m : Manager fl)
      → IsDeaf m
      → IsDeaf (send_input fl opt o m)
  recv-IsDeaf opt none m d = record { server = d.server; channel = d.channel; done = d.done }
  recv-IsDeaf opt (some w) m d = record { server = d.server; channel = d.channel; done = d.done }

  ask-IsDeaf : (m : Manager fl) → IsDeaf m → IsDeaf (ask_evaluation fl m)
  ask-IsDeaf m d = elim (Bool-cases m.evaluate) [
    | inl e ↦ ground (arith, d.server, d.channel, d.done)
    | inr e ↦ ground (arith, d.server, d.channel, d.done)
  ]

  start-IsDeaf : (m : Manager fl) → IsDeaf m → IsDeaf (start_server fl m)
  start-IsDeaf m d = ground (arith, d.server, d.channel, d.done)

  stop-IsDeaf : (m : Manager fl) → IsDeaf m → IsDeaf (stop_server fl m)
  stop-IsDeaf m d = ground (arith, d.server, d.channel, d.done)

  sent-IsDeaf :
      (o : Option (List ProfileEvaluationResult)) (m : Manager fl) → IsDeaf m → IsDeaf (sent fl o m)
  sent-IsDeaf none m d = d
  sent-IsDeaf (some rs) m d = record { server = d.server; channel = d.channel; done = d.done }

  Step-IsDeaf : {m n : Manager fl} → Step fl m n → IsDeaf m → IsDeaf n
  unfolding on_recv on_input on_metric on_evaluate
  Step-IsDeaf (Step.recv opt m b) d = recv-IsDeaf opt m.input m d
  Step-IsDeaf (Step.input none m b e) d =
      stop-IsDeaf (record m { input = none })
        (record { server = d.server; channel = d.channel; done = d.done })
  Step-IsDeaf (Step.input (some ps) m b e) d =
      let m' = record m { input = none; evaluators = set_profiles fl ps } in
      ask-IsDeaf (start_server fl m')
        (start-IsDeaf m' (record { server = d.server; channel = d.channel; done = d.done }))
  Step-IsDeaf (Step.metric name value m b e) d = cc (e, d.channel)
  Step-IsDeaf (Step.evaluation m b e) d =
      sent-IsDeaf (evaluate_all fl m.metrics m.evaluators) (record m { evaluate = false })
        (record { server = d.server; channel = d.channel; done = d.done })

  run-IsDeaf : {m n : Manager fl} → Run fl m n → IsDeaf m → IsDeaf n
  run-IsDeaf (Run.stop m) d = d
  run-IsDeaf (Run.next s r) d = run-IsDeaf r (Step-IsDeaf s d)

  -- Once a configuration without profiles has come to a manager that follows the metrics, it never
  -- follows them again, whatever configurations come later.
  pub deaf_for_ever :
      (m : Manager fl) {n : Manager fl}
      → m.metric_server ≡ true
      → m.done ≡ false
      → Run fl (on_input fl none m) n
      → n.metric_channel ≡ false
  unfolding on_input
  deaf_for_ever m s d r = (run-IsDeaf r (ground (arith, s, d))).channel

  -- No branch of the loop is taken any more.
  abbrev pub IsStuck : Manager fl → Type 0
  IsStuck m = (n : Manager fl) → ¬ Step fl m n

  blocked-IsStuck : (m : Manager fl) → m.blocked ≡ true → IsStuck m
  blocked-IsStuck m b _ (Step.recv opt _ r) = cc (b, r)
  blocked-IsStuck m b _ (Step.input opt _ r e) = cc (b, r)
  blocked-IsStuck m b _ (Step.metric name value _ r e) = cc (b, r)
  blocked-IsStuck m b _ (Step.evaluation _ r e) = cc (b, r)

  -- A second configuration without profiles blocks the loop for ever: it waits for a reader of the
  -- channel of the server that it has stopped.
  pub second_stop_blocks :
      (m : Manager fl)
      → m.blocked ≡ false
      → m.input ≡ some none
      → m.metric_server ≡ true
      → m.done ≡ true
      → Step fl m (on_input fl none m) × IsStuck (on_input fl none m)
  unfolding on_input
  second_stop_blocks m r i s d =
      (Step.input none m r i, blocked-IsStuck (on_input fl none m) (ground (arith, s, d)))
