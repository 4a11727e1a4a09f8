-- ===== src/Workers/Outcome.antt =====
-- What every schedule of the workers has in common.
use robot_maintanance.Prelude.{
  ℕ, suc, ◌+◌, String, Bool, not, List, [], ◌∷◌, ◌++◌, ◌≡◌, ◌≢◌, ◌⊎◌, inl, inr, refl, filter,
  length, All, arith, eq_iff, ◌===◌, if◌then◌else◌, length-append, if-Holds,
}
use mathlib.Core.Path.{subst}
use robot_maintanance.Workers.{
  Pool, PoolStep, takes, settles, take, taken, settle, Running, begun, later, start_pool,
}

-- How many ids of a list are processed well, and how many are not.
abbrev pub good : (String → Bool) → List String → ℕ
good ok ids = length (filter ok ids)

abbrev pub bad : (String → Bool) → List String → ℕ
bad ok ids = length (filter (λ id. not (ok id)) ids)

-- The ids of the queue are not empty; every id is queued, running or counted; every worker is
-- free, busy or gone, and one that is gone has left an empty queue behind.
pub record Accounts (ok : String → Bool) (workers : ℕ) (ids : List String) (p : Pool) : Type 0 where
  pub named : All (λ id. id ≢ "") p.queue
  pub successes : p.success_count + good ok p.running + good ok p.queue ≡ good ok ids
  pub failures : p.failure_count + bad ok p.running + bad ok p.queue ≡ bad ok ids
  pub staff : p.free + length p.running + p.left ≡ workers
  pub emptied : (p.left ≡ 0) ⊎ (p.queue ≡ [])

taken-Accounts :
    (ok : String → Bool) (workers : ℕ) (ids q : List String) (free : ℕ) (p : Pool)
    → p.free ≡ suc free
    → p.queue ≡ q
    → Accounts ok workers ids p
    → Accounts ok workers ids (taken q free p)
taken-Accounts ok workers ids [] free p f e a = record {
  named = a.named;
  successes = a.successes;
  failures = a.failures;
  staff = ground (arith, a.staff, f);
  emptied = inr e;
}
taken-Accounts ok workers ids (id ∷ rest) free p f e a =
    if-Holds (Accounts ok workers ids) (id === "") _ _
      (λ empty. absurd (named.0 (ground (arith, empty, eq_iff id ""))))
      (λ full. record {
        named = named.1;
        successes = ground (arith, a.successes, e);
        failures = ground (arith, a.failures, e);
        staff = ground (arith, a.staff, f);
        emptied = ground (arith, a.emptied, e);
      })
  where
    named : All (λ i. i ≢ "") (id ∷ rest)
    named = subst (All (λ i. i ≢ "")) e a.named

good-middle :
    (ok : String → Bool) (before after : List String) (id : String)
    → good ok (before ++ id ∷ after) ≡ (if ok id then 1 else 0) + good ok (before ++ after)
good-middle ok [] after id = ground arith
good-middle ok (b ∷ before) after id = ground (arith, good-middle ok before after id)

settle-Accounts :
    (ok : String → Bool) (workers : ℕ) (ids before after : List String) (id : String) (p : Pool)
    → p.running ≡ before ++ id ∷ after
    → Accounts ok workers ids p
    → Accounts ok workers ids (settle before after (ok id) p)
unfolding settle
settle-Accounts ok workers ids before after id p e a = record {
  named = a.named;
  successes = ground (arith, e, a.successes, good-middle ok before after id);
  failures = ground (arith, e, a.failures, good-middle (λ i. not (ok i)) before after id);
  staff = ground (arith, e, a.staff, length-append before (id ∷ after), length-append before after);
  emptied = a.emptied;
}

start-Accounts :
    (ok : String → Bool) (workers : ℕ) (ids : List String)
    → All (λ id. id ≢ "") ids
    → Accounts ok workers ids (start_pool workers ids)
start-Accounts ok workers ids h = record {
  named = h;
  successes = ground arith;
  failures = ground arith;
  staff = ground arith;
  emptied = inl refl;
}

step-Accounts :
    (ok : String → Bool) (workers : ℕ) (ids : List String) (p q : Pool)
    → PoolStep ok p q
    → Accounts ok workers ids p
    → Accounts ok workers ids q
unfolding take
step-Accounts ok workers ids _ _ (takes free p f) a =
    taken-Accounts ok workers ids p.queue free p f refl a
step-Accounts ok workers ids _ _ (settles before after id p e) a =
    settle-Accounts ok workers ids before after id p e a

-- Whatever the schedule, every id is queued, being processed or counted by its own outcome, and the
-- workers are accounted for.
pub Running-Accounts :
    (ok : String → Bool) (workers : ℕ) (ids : List String) (p : Pool)
    → All (λ id. id ≢ "") ids
    → Running ok workers ids p
    → Accounts ok workers ids p
Running-Accounts ok workers ids _ h begun = start-Accounts ok workers ids h
Running-Accounts ok workers ids _ h (later p q r s) =
    step-Accounts ok workers ids p q s (Running-Accounts ok workers ids p h r)
