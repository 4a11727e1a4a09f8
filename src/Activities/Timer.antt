-- ===== src/Activities/Timer.antt =====
-- The countdown interval of dashboardRuntimeFleetView.js and the countdowns it refreshes.
use robot_maintanance.Prelude.{String, false, not, List, is_empty, ◌≡◌, arith}
use robot_maintanance.Activities.{Activities, refresh_countdowns, start_timer}

-- The interval runs exactly while there is a countdown.
unfoldable pub IsTimed : Activities → Type 0
IsTimed a = a.timer ≡ not (is_empty a.countdowns)

pub start_timer-IsTimed :
    (nodes : List String) (a : Activities)
    → is_empty a.countdowns ≡ false
    → IsTimed (start_timer nodes a)
unfolding start_timer refresh_countdowns IsTimed
start_timer-IsTimed nodes a e = ground (arith, e)
