-- ===== src/OnlineCheck/Effects.antt =====
-- What the online check of the fleet changes (dashboardRuntimeFixTests.js).
use robot_maintanance.Prelude.{
  ℕ, ◌+◌, String, Bool, true, false, not, ◌||◌, Option, none, some, List, [], ◌∷◌, map, filter,
  length, ◌===◌, if◌then◌else◌, Dict, lookup, erase, has, contains, ◌≡◌, refl, arith,
  contains-filter, is_some, erase-insert, has-insert,
}
use robot_maintanance.Js.{Value}
use robot_maintanance.Js.Engine.{Engine}
use robot_maintanance.Fleet.{Robot, id_of}
use robot_maintanance.Activities.{Moment, is_robot_busy}
use robot_maintanance.OnlineCheck.{
  StatusUpdate, OneAnswer, OnlineState, requested, active_ids, busy_ids, eligible_ids,
  begin_online_check, get_robot_by_id, run_one_robot_online_check,
}
use robot_maintanance.OnlineCheck.Answers.{
  Pending, Answer, batch, single, unreadable, apply_updates, end_online_check, update_of,
  with_online, summarise, counts_skipped, add_checked, fallback_entries, online_result, Summary,
}

pub requested-guards :
    (t : Moment) (countdown : Value) (interval : ℕ) (s s' : OnlineState) (ids : List String)
    → begin_online_check t countdown interval s ≡ requested ids s'
    → (s.is_online_refresh_in_flight ≡ false)
      × (s.is_auto_fix_in_progress ≡ false)
      × (ids ≡ eligible_ids s)
unfolding begin_online_check
requested-guards t countdown interval s s' ids e =
    (ground (arith, e), ground (arith, e), ground (arith, e))

-- A request is sent only where no other check is in flight and no fix is running, and only for
-- robots of the fleet that are not busy.
pub begin_online_check-eligible :
    (t : Moment) (countdown : Value) (interval : ℕ) (s s' : OnlineState) (ids : List String)
    (id : String)
    → begin_online_check t countdown interval s ≡ requested ids s'
    → contains id ids ≡ true
    → (s.is_online_refresh_in_flight ≡ false)
      × (s.is_auto_fix_in_progress ≡ false)
      × (contains id (map id_of s.robots) ≡ true)
      × (is_robot_busy s.activities id ≡ false)
unfolding begin_online_check
begin_online_check-eligible t countdown interval s s' ids id e h =
    let (idle, no_fix, same) = requested-guards t countdown interval s s' ids e in
    let all = active_ids s in
    (
      idle,
      no_fix,
      ground (
        arith,
        same,
        h,
        contains-filter (λ j. not (contains j (busy_ids s))) id all,
        contains-filter (λ j. not (j === "")) id (map id_of s.robots),
      ),
      ground (
        arith,
        same,
        h,
        contains-filter (λ j. not (contains j (busy_ids s))) id all,
        contains-filter (is_robot_busy s.activities) id all,
      ),
    )

summarise-count :
    (u : Option StatusUpdate) (skip : Bool) (r : Robot) (x : Summary)
    → length (summarise u skip r x).online_names + length (summarise u skip r x).offline_names
      ≡ length x.online_names + length x.offline_names + (if is_some u then 1 else 0)
summarise-count none false r x = ground arith
summarise-count none true r x = ground arith
summarise-count (some u) skip r x = ground arith

-- The labels of the two lists are those of the robots that take a result over, each once.
apply_updates-count :
    (busy : List String) (m : Dict StatusUpdate) (skipped : List String) (rs : List Robot)
    → length (apply_updates busy m skipped rs).summary.online_names
        + length (apply_updates busy m skipped rs).summary.offline_names
      ≡ length (filter (λ r. is_some (update_of m r)) rs)
unfolding apply_updates
apply_updates-count busy m skipped [] = refl
apply_updates-count busy m skipped (r ∷ rs) =
    let rest = apply_updates busy m skipped rs in
    ground (
      arith,
      apply_updates-count busy m skipped rs,
      summarise-count (update_of m r) (counts_skipped busy m r) r rest.summary,
    )

abbrev pub without_online : Robot → Robot
without_online r = record r { tests = erase "online" r.tests }

apply_updates-online :
    (busy : List String) (m : Dict StatusUpdate) (skipped : List String) (rs : List Robot)
    → map without_online (apply_updates busy m skipped rs).robots ≡ map without_online rs
unfolding apply_updates
apply_updates-online busy m skipped [] = refl
apply_updates-online busy m skipped (r ∷ rs) =
    rw (apply_updates-online busy m skipped rs, kept (update_of m r))
  where
    kept :
        (u : Option StatusUpdate)
        → without_online (elim u [ none ↦ r | some v ↦ with_online v r ]) ≡ without_online r
    kept none = refl
    kept (some v) = rw (erase-insert "online" (online_result v) r.tests)

-- Whatever the answer is, the end of a check changes nothing of a robot but its online test.
pub end_online_check-online :
    (js : Engine) (t : Moment) (interval : ℕ) (p : Pending) (answer : Answer) (s : OnlineState)
    → map without_online (end_online_check js t interval p answer s).robots
      ≡ map without_online s.robots
unfolding end_online_check
end_online_check-online js t interval p (batch v) s = apply_updates-online _ _ _ s.robots
end_online_check-online js t interval p (single known answer) s =
    apply_updates-online _ _ _ s.robots
end_online_check-online js t interval p unreadable s = refl

add_checked-has :
    (js : Engine) (answer : String → OneAnswer) (i : String) (o : Option Robot)
    (m : Dict StatusUpdate) (id : String)
    → has id (add_checked js answer i o m) ≡ true
    → (has id m || i === id) ≡ true
add_checked-has js answer i none m id h = ground (arith, h)
add_checked-has js answer i (some r) m id h =
    ground (arith, h, has-insert i id (run_one_robot_online_check js r (answer i)) m)

fallback_entries-has :
    (js : Engine) (known : List Robot) (answer : String → OneAnswer) (ids : List String)
    (m : Dict StatusUpdate) (id : String)
    → has id (fallback_entries js known answer ids m) ≡ true
    → (has id m || contains id ids) ≡ true
unfolding contains
fallback_entries-has js known answer [] m id h = ground (arith, h)
fallback_entries-has js known answer (i ∷ ids) m id h =
    let o = get_robot_by_id known i in
    ground (
      arith,
      fallback_entries-has js known answer ids (add_checked js answer i o m) id h,
      add_checked-has js answer i o m id,
    )

apply_updates-others :
    (busy ids : List String) (m : Dict StatusUpdate) (skipped : List String) (rs : List Robot)
    → ((id : String) → has id m ≡ true → contains id ids ≡ true)
    → filter (λ r. not (contains (id_of r) ids)) (apply_updates busy m skipped rs).robots
      ≡ filter (λ r. not (contains (id_of r) ids)) rs
unfolding apply_updates has
apply_updates-others busy ids m skipped [] h = refl
apply_updates-others busy ids m skipped (r ∷ rs) h =
    ground (arith, apply_updates-others busy ids m skipped rs h, h (id_of r))

-- Where the robots are checked one by one, only the robots that the check was begun for take a
-- result over: every other robot stays exactly as it was.
pub end_online_check-single :
    (js : Engine) (t : Moment) (interval : ℕ) (p : Pending) (known : List Robot)
    (answer : String → OneAnswer) (s : OnlineState)
    → filter
        (λ r. not (contains (id_of r) p.ids))
        (end_online_check js t interval p (single known answer) s).robots
      ≡ filter (λ r. not (contains (id_of r) p.ids)) s.robots
unfolding end_online_check has lookup
end_online_check-single js t interval p known answer s =
    apply_updates-others [] p.ids (fallback_entries js known answer p.ids []) p.skipped s.robots
      (λ id h. ground (arith, fallback_entries-has js known answer p.ids [] id h))
