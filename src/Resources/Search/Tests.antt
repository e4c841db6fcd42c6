-- ===== src/Resources/Search/Tests.antt =====
-- Searches at concrete inputs.
use flotta_device_worker_ng.Base.{
  ◌≤◌, ◌≡◌, refl, Bool, true, false, List, [], ◌∷◌, none, some, Bytes, codes, str_eq,
}
use flotta_device_worker_ng.Resources.Search.{
  Entry, Search, start, on_walk, given_up, taken, Step, Run,
}
use flotta_device_worker_ng.Resources.Search.Found.{Source}
use flotta_device_worker_ng.Resources.Search.Few.{hits, lost-few}
use flotta_device_worker_ng.Resources.Search.Race.{search_races}

abbrev is_ours : Bytes → Bool
is_ours name = str_eq name (codes "flotta-a.slice")

abbrev entries : List Entry
entries =
    record { path = codes "/sys/fs/cgroup/"; name = codes "cgroup"; is_dir = true; failed = false }
    ∷ record {
      path = codes "/sys/fs/cgroup/flotta-a.slice";
      name = codes "flotta-a.slice";
      is_dir = true;
      failed = false;
    }
    ∷ []

search_races_example :
    (s : Search) × (p : Bytes) × Source is_ours true entries p
    × Run is_ours true (start entries) s
    × Step is_ours true s (taken p s)
    × Step is_ours true s (given_up s)
    × ((taken p s).answer ≡ some (some p))
    × ((given_up s).answer ≡ some none)
unfolding str_eq
search_races_example = search_races is_ours true entries refl refl

-- The walk to its end, and the select that takes what it returned.
abbrev walked : Search
walked = on_walk is_ours true (on_walk is_ours true (on_walk is_ours true (start entries)))

gives_up : Run is_ours true (start entries) (given_up walked)
unfolding start on_walk str_eq
gives_up = Run.next (Step.walk (start entries) refl refl) (
    Run.next (Step.walk (on_walk is_ours true (start entries)) refl refl) (
      Run.next (Step.walk (on_walk is_ours true (on_walk is_ours true (start entries))) refl refl)
        (Run.next (Step.fail false walked refl refl) (Run.stop (given_up walked)))))

lost-few_example : hits is_ours entries ≤ 1
lost-few_example = lost-few is_ours true entries gives_up refl
