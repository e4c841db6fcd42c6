-- ===== src/Scheduler/Store.antt =====
-- internal/scheduler/store.go. Jobs are pointers: a job's address is its place in `heap`. The slice
-- `jobs` is the first `len` cells of its backing array, which `ToList` shares with its caller.
pub mod Laws
use flotta_device_worker_ng.Base.{
  ℕ, zero, suc, ◌+◌, ◌-◌, Bool, true, false, List, [], ◌∷◌, ◌++◌, Option, none, some, leb,
  if◌then◌else◌, length, get_elem?, take, drop, Bytes, str_eq,
}
use flotta_device_worker_ng.Entity.Job.{Job}
use flotta_device_worker_ng.Entity.Job

abbrev pub Heap : Type 0
Heap = List Job

pub record Store : Type 0 where
  pub array : List ℕ
  pub len : ℕ

-- `s.jobs`, and what `ToList` returns.
abbrev pub jobs : Store → List ℕ
jobs s = take s.len s.array

abbrev pub new_store : Store
new_store = record { array = []; len = 0 }

-- `Get`.
unfoldable pub get : ℕ → Store → Option ℕ
get idx s = if leb s.len idx then none else get_elem? (jobs s) idx

-- Whether the job at an address has an identifier.
abbrev pub has_id_job : Bytes → Option Job → Bool
has_id_job k none = false
has_id_job k (some j) = str_eq (Job.id j) k

abbrev pub has_id : Heap → Bytes → ℕ → Bool
has_id h k p = has_id_job k (get_elem? h p)

-- `index`, over the pointers from the index `i` on.
unfoldable pub index : Heap → Bytes → ℕ → List ℕ → Option ℕ
index h k i [] = none
index h k i (p ∷ ps) = if has_id h k p then some i else index h k (i + 1) ps

-- `Find`.
unfoldable pub find : Heap → Bytes → List ℕ → Option ℕ
find h k [] = none
find h k (p ∷ ps) = if has_id h k p then some p else find h k ps

-- The slice without the element at an index.
abbrev pub remove_at : ℕ → List ℕ → List ℕ
remove_at i [] = []
remove_at zero (p ∷ ps) = ps
remove_at (suc i) (p ∷ ps) = p ∷ remove_at i ps

-- `append(s.jobs[:idx], s.jobs[idx+1:]...)`: the elements behind `idx` move down one cell in the
-- backing array, and the last cell of the slice keeps what it holds.
abbrev pub cut : ℕ → Store → Store
cut i s = record { array = remove_at i (jobs s) ++ drop (s.len - 1) s.array; len = s.len - 1 }

abbrev pub delete_at : Option ℕ → Store → Store
delete_at none s = s
delete_at (some i) s = cut i s

-- `Delete`, of the job with an identifier.
unfoldable pub delete : Heap → Bytes → Store → Store
delete h k s = delete_at (index h k 0 (jobs s)) s

-- `Add`. What the backing array holds behind the slice is not read again, and is left out.
unfoldable pub add : ℕ → Store → Store
add p s = record { array = jobs s ++ p ∷ []; len = length (jobs s) + 1 }
