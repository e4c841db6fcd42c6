-- ===== src/Profile/Manager.antt =====
-- internal/profile/manager.go, and `Shutdown` of internal/profile/server.go: the loop of the profile
-- manager as a step relation. A step is one branch
-- of its `select`. The loop is the only reader of `input` and `evaluate`, which have room for one
-- message each; what it sends to `OutputCh` is kept in `output`, oldest first.
pub mod Faults
use flotta_device_worker_ng.Base.{
  ℕ, ◌≡◌, Bool, true, false, List, [], ◌∷◌, ◌++◌, Option, none, some, if◌then◌else◌, Bytes, insert,
}
use flotta_device_worker_ng.Interpreter.Float.{Float32}
use flotta_device_worker_ng.Interpreter.Eval.{Variable, Variables, float32}
use flotta_device_worker_ng.Profile.Results.{ProfileEvaluationResult}
use flotta_device_worker_ng.Profile.Evaluator.{
  DeviceProfile, ProfileEvaluator, set_profiles, evaluate_all,
}

module _ (fl : Float32) where
  open fl use {Carrier}

  -- `entity.Option[map[string]entity.DeviceProfile]`, where `none` is that there is no profile.
  abbrev pub Payload : Type 0
  Payload = Option (List (Bytes × DeviceProfile fl))

  -- `metric_server` is whether there is one, `metric_channel` whether the channel is not nil, and
  -- `blocked` whether the loop waits for room in one of its own channels, or for a reader of the
  -- server's `doneCh`, which is read once: `done` is whether it was.
  pub record Manager : Type 0 where
    pub evaluators : List (ProfileEvaluator fl)
    pub metrics : Variables fl
    pub metric_server : Bool
    pub metric_channel : Bool
    pub done : Bool
    pub input : Option Payload
    pub evaluate : Bool
    pub output : List (List ProfileEvaluationResult)
    pub blocked : Bool

  -- `_new`, with the channels that `run` makes.
  abbrev pub new_manager : Manager
  new_manager = record {
    evaluators = [];
    metrics = [];
    metric_server = false;
    metric_channel = false;
    done = false;
    input = none;
    evaluate = false;
    output = [];
    blocked = false;
  }

  -- `evaluate <- struct{}{}`.
  abbrev pub ask_evaluation : Manager → Manager
  ask_evaluation m =
      if m.evaluate then record m { blocked = true } else record m { evaluate = true }

  abbrev pub send_input : Payload → Option Payload → Manager → Manager
  send_input opt none m = record m { input = some opt }
  send_input opt (some waiting) m = record m { blocked = true }

  -- The branch of `recv`, for a configuration of the profiles.
  unfoldable pub on_recv : Payload → Manager → Manager
  on_recv opt m = send_input opt m.input m

  -- `Shutdown` of the server, which stays the manager's server.
  abbrev pub stop_server : Manager → Manager
  stop_server m =
      if m.metric_server
      then if m.done
        then record m { blocked = true }
        else record m { metric_channel = false; done = true }
      else m

  abbrev pub start_server : Manager → Manager
  start_server m =
      if m.metric_server then m else record m { metric_server = true; metric_channel = true }

  -- The branch of `input`.
  unfoldable pub on_input : Payload → Manager → Manager
  on_input none m = stop_server (record m { input = none })
  on_input (some profiles) m =
      ask_evaluation
        (start_server (record m { input = none; evaluators = set_profiles fl profiles }))

  -- The branch of `metricChannel`.
  unfoldable pub on_metric : Bytes → Carrier → Manager → Manager
  on_metric name value m =
      ask_evaluation (record m { metrics = insert name (float32 value) m.metrics })

  abbrev pub sent : Option (List ProfileEvaluationResult) → Manager → Manager
  sent none m = m
  sent (some results) m = record m { output = m.output ++ results ∷ [] }

  -- The branch of `evaluate`.
  unfoldable pub on_evaluate : Manager → Manager
  on_evaluate m = sent (evaluate_all fl m.metrics m.evaluators) (record m { evaluate = false })

  pub data Step : Manager → Manager → Type 0 where
    recv : (opt : Payload) (m : Manager) → m.blocked ≡ false → Step m (on_recv opt m)
    input :
        (opt : Payload) (m : Manager)
        → m.blocked ≡ false
        → m.input ≡ some opt
        → Step m (on_input opt m)
    metric :
        (name : Bytes) (value : Carrier) (m : Manager)
        → m.blocked ≡ false
        → m.metric_channel ≡ true
        → Step m (on_metric name value m)
    evaluation : (m : Manager) → m.blocked ≡ false → m.evaluate ≡ true → Step m (on_evaluate m)

  -- A run of the loop.
  pub data Run : Manager → Manager → Type 0 where
    stop : (m : Manager) → Run m m
    next : {l m n : Manager} → Step l m → Run m n → Run l n
