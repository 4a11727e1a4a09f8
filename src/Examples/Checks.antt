-- ===== src/Examples/Checks.antt =====
-- The theorems on online checks and test runs, applied.
use robot_maintanance.Prelude.{String, true, false, List, [], ◌∷◌, ◌≡◌, refl, contains}
use robot_maintanance.Js.{Value, undefined, obj, field, no_fields, arr, item, no_items, trim}
use robot_maintanance.Normalize.{clean}
use robot_maintanance.Activities.{set_robot_searching_bulk}
use robot_maintanance.OnlineCheck.{OneAnswer, OnlineState, requested, begin_online_check}
use robot_maintanance.OnlineCheck.Answers.{Pending, batch, end_online_check}
use robot_maintanance.OnlineCheck
use robot_maintanance.OnlineCheck.Ending.{end_online_check-idle}
use robot_maintanance.Examples.{plain, fleet, busy, moment, result}

abbrev calm : OnlineState
calm = record {
  robots = fleet;
  activities = busy;
  is_online_refresh_in_flight = false;
  is_auto_fix_in_progress = false;
  online_refresh_started_at = 0;
  online_refresh_last_at = 0;
  online_refresh_next_at = 0;
}

abbrev checking : OnlineState
checking = record calm {
  is_online_refresh_in_flight = true;
  online_refresh_started_at = moment.now;
  activities = set_robot_searching_bulk moment ("r2" ∷ "r3" ∷ []) true undefined busy;
}

abbrev pending : Pending
pending = record { ids = "r2" ∷ "r3" ∷ []; busy = "r1" ∷ []; skipped = "r1" ∷ [] }

begun : begin_online_check moment undefined 2000 calm ≡ requested pending.ids checking
unfolding begin_online_check clean trim contains
begun = refl

r3_pending : contains "r3" pending.ids ≡ true
unfolding contains
r3_pending = refl

abbrev results : Value
results = obj (
    field "results"
      (arr (item (result "robotId" "r2" "ok") (item (result "robotId" "r1" "error") no_items)))
      no_fields)

end_online_check-idle_example :
    (contains "r3"
        (end_online_check plain moment 2000 pending (batch results) checking).activities.searching
      ≡ false)
    × ((end_online_check plain moment 2000 pending
          (batch results)
          checking).is_online_refresh_in_flight
        ≡ false)
end_online_check-idle_example =
    end_online_check-idle plain moment moment undefined 2000 calm checking checking pending
      (batch results) "r3" begun r3_pending

abbrev answer : String → OneAnswer
answer id = OnlineCheck.OneAnswer.thrown "connection reset"

-- A run without an online result and one with it.
abbrev run : List Value
run = result "id" "battery" "error" ∷ result "id" "lidar" "error" ∷ []

abbrev run_with_online : List Value
run_with_online = result "id" "battery" "ok" ∷ result "id" "online" "error" ∷ []
