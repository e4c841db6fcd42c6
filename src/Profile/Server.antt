-- ===== src/Profile/Server.antt =====
-- internal/profile/server.go: the handler of the metric server, as a step relation of its requests and
-- of the goroutines that send their metrics. `Shutdown` is with the manager.
pub mod Bounds
pub mod Crowd
mod Tests
use flotta_device_worker_ng.Base.{
  ℕ, ◌+◌, ◌-◌, ◌≤◌, ◌≡◌, List, [], ◌∷◌, ◌++◌, Option, none, some, if◌then◌else◌, Bytes, leb, length,
}

-- The codes 200, 400 and 500.
pub data Status : Type 0 where
  ok bad_request internal_error : Status

-- `max`.
abbrev pub max_count : ℕ
max_count = 10

-- `A` is the type of metrics, and `unmarshal` the reading of JSON.
module _ {A : Type 0} (unmarshal : Bytes → Option A) where
  -- `handling` has what `ReadAll` makes of the bodies of the requests that have passed the test of
  -- the counter, `sending` the metrics of the goroutines that have not sent theirs, and `sent` is how
  -- many have sent, but not counted down. `answers` and `received` keep what has been answered and
  -- what the manager has read, oldest first.
  pub record Server : Type 0 where
    pub count : ℕ
    pub handling : List (Option Bytes)
    pub sending : List A
    pub sent : ℕ
    pub out_ch : Option A
    pub answers : List Status
    pub received : List A

  abbrev pub new_server : Server
  new_server = record {
    count = 0;
    handling = [];
    sending = [];
    sent = 0;
    out_ch = none;
    answers = [];
    received = [];
  }

  abbrev pub answer : Status → Server → Server
  answer status s = record s { answers = s.answers ++ status ∷ [] }

  -- The load of the counter, for a request with a body.
  unfoldable pub on_request : Option Bytes → Server → Server
  on_request body s =
      if leb max_count s.count then answer ok s else record s { handling = s.handling ++ body ∷ [] }

  abbrev pub counted : Option A → Server → Server
  counted none s = answer bad_request s
  counted (some metric) s =
      answer ok (record s { count = s.count + 1; sending = s.sending ++ metric ∷ [] })

  -- The rest of the handler.
  unfoldable pub on_body : Option Bytes → Server → Server
  on_body none s = answer internal_error s
  on_body (some data_read) s = counted (unmarshal data_read) s

  pub data Step : Server → Server → Type 0 where
    request : (body : Option Bytes) (s : Server) → Step s (on_request body s)
    handle :
        (before after : List (Option Bytes)) (body : Option Bytes) (s : Server)
        → s.handling ≡ before ++ body ∷ after
        → Step s (on_body body (record s { handling = before ++ after }))
    send :
        (before after : List A) (metric : A) (s : Server)
        → s.sending ≡ before ++ metric ∷ after
        → s.out_ch ≡ none
        → Step s (record s { sending = before ++ after; out_ch = some metric; sent = s.sent + 1 })
    count_down :
        (n : ℕ) (s : Server) → s.sent ≡ n + 1 → Step s (record s { sent = n; count = s.count - 1 })
    receive :
        (metric : A) (s : Server)
        → s.out_ch ≡ some metric
        → Step s (record s { out_ch = none; received = s.received ++ metric ∷ [] })

  -- A run in which at most `k` requests are handled at a time, behind the test of the counter.
  pub data Run (k : ℕ) : Server → Server → Type 0 where
    stop : (s : Server) → Run k s s
    next : {l m n : Server} → Step l m → length m.handling ≤ k → Run k m n → Run k l n
