-- ===== src/Profile/Server/Tests.antt =====
-- Requests of the metric server at concrete inputs.
use flotta_device_worker_ng.Base.{
  ℕ, ◌+◌, ◌≤◌, ◌≡◌, refl, List, [], ◌∷◌, Option, none, some, Bytes, length, arith,
}
use flotta_device_worker_ng.Profile.Server.{Server, new_server, on_request, Step, Run}
use flotta_device_worker_ng.Profile.Server.Bounds.{count_bounds}
use flotta_device_worker_ng.Profile.Server.Crowd.{crowd_counts}

-- A metric is a byte.
abbrev first_byte : Bytes → Option ℕ
first_byte [] = none
first_byte (b ∷ bs) = some b

abbrev fresh : Server first_byte
fresh = new_server first_byte

-- A request that has passed the test of the counter.
abbrev one_comes : Run first_byte 1 fresh (on_request first_byte (some (7 ∷ [])) fresh)
unfolding on_request
one_comes =
    Run.next (Step.request (some (7 ∷ [])) fresh) (omega arith)
      (Run.stop (on_request first_byte (some (7 ∷ [])) fresh))

count_bounds_example :
    ((on_request first_byte (some (7 ∷ [])) fresh).count
      ≡ length (on_request first_byte (some (7 ∷ [])) fresh).sending
        + (on_request first_byte (some (7 ∷ [])) fresh).sent)
    × ((on_request first_byte (some (7 ∷ [])) fresh).count ≤ 9 + 1)
count_bounds_example = count_bounds first_byte 1 one_comes

-- Eleven metrics at once.
abbrev eleven : List ℕ
eleven = 1 ∷ 2 ∷ 3 ∷ 4 ∷ 5 ∷ 6 ∷ 7 ∷ 8 ∷ 9 ∷ 10 ∷ 11 ∷ []

crowd_counts_example :
    (t : Server first_byte) × Run first_byte (length eleven) fresh t
    × (t.count ≡ length eleven)
    × (t.sending ≡ eleven)
crowd_counts_example = crowd_counts first_byte (λ v. v ∷ []) eleven (λ v. refl)
