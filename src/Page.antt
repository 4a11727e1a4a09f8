-- ===== src/Page.antt =====
-- The part of the page's state that the runs of fixes and of tests change, and what surrounds a run
-- (assets/js/modules/dashboard/controllers/runtime/dashboardRuntimeFixTests.js and
-- dashboardRuntimeDetailShell.js). While a run waits, the rest of the page goes on.
use robot_maintanance.Prelude.{ℕ, String, Bool, List, [], ◌∷◌, map, ◌===◌, if◌then◌else◌}
use robot_maintanance.Js.{Value, Number, template}
use robot_maintanance.Js.Engine.{Engine}
use robot_maintanance.Fleet.{Robot, id_of}
use robot_maintanance.Activities.{
  Activities, Moment, set_robot_testing, set_robot_searching, set_robot_fixing,
}
use robot_maintanance.OnlineCheck.{StatusUpdate}
use robot_maintanance.OnlineCheck.Answers.{with_online}

-- The part of the page's state that a run changes.
pub record PageState : Type 0 where
  pub robots : List Robot
  pub activities : Activities

-- What surrounds a run: the engine, the other actions of the page, and the moments.
pub record Surroundings : Type 0 where
  pub js : Engine
  pub others : ℕ → PageState → PageState
  pub moment : ℕ → Moment

abbrev pub testing : Moment → String → Bool → Value → PageState → PageState
testing t id on ms s = record s { activities = set_robot_testing t id on ms s.activities }

abbrev pub searching : Moment → String → Bool → Value → PageState → PageState
searching t id on ms s = record s { activities = set_robot_searching t id on ms s.activities }

abbrev pub fixing : Moment → String → Bool → Value → PageState → PageState
fixing t id on ms s = record s { activities = set_robot_fixing t id on ms s.activities }

abbrev pub set_online : String → StatusUpdate → List Robot → List Robot
set_online id u robots = map (λ r. if id_of r === id then with_online u r else r) robots

abbrev pub http_message : Engine → Number → String → String
http_message js code text =
    if text === "" then template ("HTTP " ∷ js.number_text code ∷ []) else text
