-- ===== src/Profile/Tests.antt =====
-- Runs of the profile manager at concrete inputs.
use flotta_device_worker_ng.Base.{◌≡◌, refl, true, false, [], none, some}
use flotta_device_worker_ng.Interpreter.Naturals.{naturals}
use flotta_device_worker_ng.Profile.Manager.{Manager, new_manager, on_recv, on_input, Step, Run}
use flotta_device_worker_ng.Profile.Manager.Faults.{deaf_for_ever}

-- A manager that follows the metrics, with an evaluation asked for.
abbrev following : Manager naturals
following = record (new_manager naturals) {
  metric_server = true;
  metric_channel = true;
  evaluate = true;
}

-- The profiles are taken away, and an empty list of them comes.
abbrev renewed : Manager naturals
renewed = on_recv naturals (some []) (on_input naturals none following)

deaf : Run naturals (on_input naturals none following) renewed
unfolding on_input on_recv
deaf = Run.next (Step.recv (some []) (on_input naturals none following) refl) (Run.stop renewed)

deaf_for_ever_example : renewed.metric_channel ≡ false
deaf_for_ever_example = deaf_for_ever naturals following refl refl deaf
