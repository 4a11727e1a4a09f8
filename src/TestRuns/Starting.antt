-- ===== src/TestRuns/Starting.antt =====
-- With which robots and workers a manual test run starts, and what its counters come to.
use robot_maintanance.Prelude.{
  ℕ, ◌≤◌, String, Bool, true, false, not, ◌&&◌, ◌||◌, List, [], ◌∷◌, All, length, is_empty, ◌===◌,
  if◌then◌else◌, ◌≡◌, ◌≢◌, refl, ◌∙◌, arith, eq_iff, if-Holds,
}
use mathlib.Core.Path.{ap, subst}
use robot_maintanance.Fleet.{robot_id}
use robot_maintanance.Fleet.Ids.{robot_id-empty}
use robot_maintanance.Selection.{
  Selection, RunOptions, named, selected_robot_ids, reachable_robot_ids, select_robot_ids,
  get_robot_ids_for_run,
}
use robot_maintanance.Workers.{Pool, Running, IsOver, start_pool, worker_count}
use robot_maintanance.Workers.Ending.{in_order, over-in_order}
use robot_maintanance.TestRuns.{RunState, RunBegun, refused, running, begin_manual_tests}

abbrev AllNamed : List String → Type 0
AllNamed ids = All (λ id. id ≢ "") ids

named-AllNamed : (ids : List String) → AllNamed (named ids)
named-AllNamed [] = tt
named-AllNamed (id ∷ ids) =
    if-Holds AllNamed (not (robot_id id === "")) (id ∷ named ids) (named ids)
      (λ full. (not_empty full, named-AllNamed ids)) (λ blank. named-AllNamed ids)
  where
    not_empty : not (robot_id id === "") ≡ true → id ≢ ""
    not_empty full e = ground (arith, full, ap robot_id e, robot_id-empty, eq_iff (robot_id id) "")

get_robot_ids_for_run-AllNamed :
    (o : RunOptions) (s : Selection) → AllNamed (get_robot_ids_for_run o s).0
unfolding get_robot_ids_for_run
get_robot_ids_for_run-AllNamed o s =
    let reachable = named (reachable_robot_ids s) in
    let P = λ (x : List String × Selection). AllNamed x.0 in
    if-Holds P (not (is_empty (named (selected_robot_ids s)))) (named (selected_robot_ids s), s)
      (if o.auto_select_online_when_empty
        then (if is_empty reachable
            then ([], s)
            else (reachable, select_robot_ids reachable false s))
        else if o.fallback_to_active && not (o.detail_robot_id === "")
        then (o.detail_robot_id ∷ [], s)
        else ([], s))
      (λ some_selected. named-AllNamed (selected_robot_ids s))
      (λ none_selected.
        if-Holds P o.auto_select_online_when_empty
          (if is_empty reachable then ([], s) else (reachable, select_robot_ids reachable false s))
          (if o.fallback_to_active && not (o.detail_robot_id === "")
            then (o.detail_robot_id ∷ [], s)
            else ([], s))
          (λ selects.
            if-Holds P (is_empty reachable) ([], s) (reachable, select_robot_ids reachable false s)
              (λ nobody. tt) (λ somebody. named-AllNamed (reachable_robot_ids s)))
          (λ stays.
            if-Holds P (o.fallback_to_active && not (o.detail_robot_id === ""))
              (o.detail_robot_id ∷ [], s) ([], s)
              (λ shown. (λ e. ground (arith, shown, e, eq_iff o.detail_robot_id ""), tt))
              (λ closed. tt)))

-- The queue of a run that begins holds at least one id and no empty one, all its workers are free,
-- and the run counts as in progress.
abbrev pub IsReady : ℕ → RunBegun → Type 0
IsReady parallelism (refused s) = Unit
IsReady parallelism (running p s) =
    AllNamed p.queue
    × (1 ≤ length p.queue)
    × (p ≡ start_pool (worker_count parallelism p.queue) p.queue)
    × (s.is_test_run_in_progress ≡ true)

begin_manual_tests-IsReady :
    (parallelism : ℕ) (o : RunOptions) (s : RunState)
    → IsReady parallelism (begin_manual_tests parallelism o s)
unfolding begin_manual_tests
begin_manual_tests-IsReady parallelism o s =
    let x = get_robot_ids_for_run o s.selection in
    let goes_on =
      running (start_pool (worker_count parallelism x.0) x.0)
        (record s { is_test_run_in_progress = true; selection = x.1 }) in
    if-Holds (IsReady parallelism) (s.is_test_run_in_progress || s.is_auto_fix_in_progress)
      (refused s) (if is_empty x.0 then refused (record s { selection = x.1 }) else goes_on)
      (λ busy. tt)
      (λ idle.
        if-Holds (IsReady parallelism) (is_empty x.0) (refused (record s { selection = x.1 }))
          goes_on (λ nothing. tt)
          (λ something.
            (get_robot_ids_for_run-AllNamed o s.selection, some_length x.0 something, refl, refl)))
  where
    some_length : (l : List String) → is_empty l ≡ false → 1 ≤ length l
    some_length [] e = cc
    some_length (y ∷ l) e = omega arith

-- However its workers are scheduled, a manual test run that begins ends with the counters of
-- testing its robots one after the other, where `ok` says which of them are tested well.
pub manual_run-counts :
    (parallelism : ℕ) (o : RunOptions) (s t : RunState) (p q : Pool) (ok : String → Bool)
    → begin_manual_tests parallelism o s ≡ running p t
    → Running ok p.free p.queue q
    → IsOver p.free q
    → (q.success_count, q.failure_count) ≡ in_order ok p.queue
manual_run-counts parallelism o s t p q ok e r over =
    let ready = subst (IsReady parallelism) e (begin_manual_tests-IsReady parallelism o s) in
    let free = ap (λ (x : Pool). x.free) ready.2 in
    over-in_order ok parallelism p.queue q ready.0 (subst (λ w. Running ok w p.queue q) free r)
      (over ∙ free)
