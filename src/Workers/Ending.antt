-- ===== src/Workers/Ending.antt =====
-- The end of a run of the workers.
use robot_maintanance.Prelude.{
  ℕ, zero, suc, ◌+◌, ◌*◌, ◌<◌, String, Bool, List, [], ◌∷◌, ◌≡◌, ◌≢◌, refl, length, All, arith,
  if◌then◌else◌, length-append, ◌⊎◌, inl, inr, List-cases,
}
use robot_maintanance.Workers.{
  Pool, PoolStep, takes, settles, take, taken, settle, Running, IsOver, worker_count,
}
use robot_maintanance.Workers.Outcome.{good, bad, Accounts, Running-Accounts}

-- Processing the ids one after the other: what the workers are to give together.
abbrev pub in_order : (String → Bool) → List String → ℕ × ℕ
in_order ok [] = (0, 0)
in_order ok (id ∷ ids) =
    let rest = in_order ok ids in if ok id then (suc rest.0, rest.1) else (rest.0, suc rest.1)

in_order-counts :
    (ok : String → Bool) (ids : List String) → in_order ok ids ≡ (good ok ids, bad ok ids)
in_order-counts ok [] = refl
in_order-counts ok (id ∷ ids) = ground (arith, in_order-counts ok ids)

over-nothing_left :
    (ok : String → Bool) (workers : ℕ) (ids : List String) (p : Pool)
    → 0 < workers
    → Accounts ok workers ids p
    → IsOver workers p
    → (p.queue ≡ []) × (p.running ≡ [])
over-nothing_left ok workers ids p w a o =
    (ground (arith, a.emptied, o, w), ground (arith, a.staff, o))

-- Whatever the parallelism and the schedule: when all workers have left, the counters are those of
-- processing the robots one after the other.
pub over-in_order :
    (ok : String → Bool) (parallelism : ℕ) (ids : List String) (p : Pool)
    → All (λ id. id ≢ "") ids
    → Running ok (worker_count parallelism ids) ids p
    → IsOver (worker_count parallelism ids) p
    → (p.success_count, p.failure_count) ≡ in_order ok ids
unfolding worker_count
over-in_order ok parallelism ids p h r o =
    let a = Running-Accounts ok (worker_count parallelism ids) ids p h r in
    let (q, n) = over-nothing_left ok (worker_count parallelism ids) ids p (ground arith) a o in
    ground (arith, q, n, a.successes, a.failures, in_order-counts ok ids)

-- Every step brings the end nearer: an id is taken once and settled once, and a worker leaves once.
abbrev pub remaining : Pool → ℕ
remaining p = 3 * length p.queue + 2 * length p.running + p.free

taken-remaining :
    (free : ℕ) (q : List String) (p : Pool)
    → p.free ≡ suc free
    → p.queue ≡ q
    → remaining (taken q free p) < remaining p
taken-remaining free [] p f e = ground (arith, f, e)
taken-remaining free (id ∷ q) p f e = ground (arith, f, e)

step-remaining : (ok : String → Bool) (p q : Pool) → PoolStep ok p q → remaining q < remaining p
unfolding take settle
step-remaining ok _ _ (takes free p f) = taken-remaining free p.queue p f refl
step-remaining ok _ _ (settles before after id p e) =
    ground (arith, e, length-append before (id ∷ after), length-append before after)

free-cases : (n : ℕ) → (n ≡ 0) ⊎ ((m : ℕ) × (n ≡ suc m))
free-cases zero = inl refl
free-cases (suc m) = inr (m, refl)

not_stuck :
    (ok : String → Bool) (workers : ℕ) (ids : List String) (p : Pool)
    → Accounts ok workers ids p
    → IsOver workers p ⊎ ((q : Pool) × PoolStep ok p q)
not_stuck ok workers ids p a = elim (free-cases p.free) [
  | inr (m, f) ↦ inr (take m p, takes m p f)
  | inl f ↦ elim (List-cases p.running) [
    | inl e ↦ inl (ground (arith, a.staff, f, e))
    | inr (id, rest, e) ↦ inr (settle [] rest (ok id) p, settles [] rest id p e)
  ]
]

-- A run of the workers on ids that are not empty cannot get stuck and cannot go on for ever: until
-- all workers have left some step is possible, and every step makes the work that remains smaller.
pub Running-ends :
    (ok : String → Bool) (parallelism : ℕ) (ids : List String) (p : Pool)
    → All (λ id. id ≢ "") ids
    → Running ok (worker_count parallelism ids) ids p
    → (IsOver (worker_count parallelism ids) p ⊎ ((q : Pool) × PoolStep ok p q))
      × ((q : Pool) → PoolStep ok p q → remaining q < remaining p)
Running-ends ok parallelism ids p h r =
    let workers = worker_count parallelism ids in
    (
      not_stuck ok workers ids p (Running-Accounts ok workers ids p h r),
      λ q s. step-remaining ok p q s,
    )
