-- ===== src/Workers.antt =====
-- The queue of robots that parallel workers share in `runAutoFixCandidate`
-- (assets/js/modules/dashboard/controllers/runtime/dashboardRuntimeFixTests.js) and in
-- `runManualTests` (dashboardRuntimeDetailShell.js). A worker takes the next id and processes it;
-- while it waits, the other workers go on.
pub mod Outcome
pub mod Ending
use robot_maintanance.Prelude.{
  ℕ, suc, ◌+◌, String, Bool, true, false, List, [], ◌∷◌, ◌++◌, ◌≡◌, min, max, length, is_empty,
  ◌===◌, if◌then◌else◌,
}

-- `Math.max(1, Math.min(getFleetParallelism(), ids.length))`
unfoldable pub worker_count : ℕ → List String → ℕ
worker_count parallelism ids = max 1 (min parallelism (length ids))

-- The queue, the ids that workers are processing, how many workers are free to take an id, how many
-- have left their loop, and the two counters.
pub record Pool : Type 0 where
  pub queue : List String
  pub running : List String
  pub free : ℕ
  pub left : ℕ
  pub success_count : ℕ
  pub failure_count : ℕ

abbrev pub start_pool : ℕ → List String → Pool
start_pool workers ids = record {
  queue = ids;
  running = [];
  free = workers;
  left = 0;
  success_count = 0;
  failure_count = 0;
}

-- A worker takes the first id of the queue, or leaves where the queue or the id is empty.
abbrev pub taken : List String → ℕ → Pool → Pool
taken [] free p = record p { free = free; left = p.left + 1 }
taken (id ∷ ids) free p =
    if id === ""
    then record p { queue = ids; free = free; left = p.left + 1 }
    else record p { queue = ids; running = id ∷ p.running; free = free }

unfoldable pub take : ℕ → Pool → Pool
take free p = taken p.queue free p

-- The processing of an id ends, well or not, and its worker is free again.
unfoldable pub settle : List String → List String → Bool → Pool → Pool
settle before after ok p = record p {
  running = before ++ after;
  free = p.free + 1;
  success_count = if ok then p.success_count + 1 else p.success_count;
  failure_count = if ok then p.failure_count else p.failure_count + 1;
}

-- The steps of the pool in any order, where `ok` says which ids are processed well.
pub data PoolStep (ok : String → Bool) : Pool → Pool → Type 0 where
  takes : (free : ℕ) (p : Pool) → p.free ≡ suc free → PoolStep ok p (take free p)
  settles :
      (before after : List String) (id : String) (p : Pool)
      → p.running ≡ before ++ id ∷ after
      → PoolStep ok p (settle before after (ok id) p)

-- The pools that a run of some ids with some workers goes through.
pub data Running (ok : String → Bool) (workers : ℕ) (ids : List String) : Pool → Type 0 where
  begun : Running ok workers ids (start_pool workers ids)
  later : (p q : Pool) → Running ok workers ids p → PoolStep ok p q → Running ok workers ids q

-- `Promise.all(workers)` is over when every worker has left.
abbrev pub IsOver : ℕ → Pool → Type 0
IsOver workers p = p.left ≡ workers
