-- ===== src/Activities/Texts.antt =====
-- The texts of the countdown nodes: `getCountdownLabel` and `getTestingCountdownText` of
-- dashboardRuntimeFleetView.js.
use robot_maintanance.Prelude.{
  ℕ, ◌+◌, ◌-◌, ◌/◌, String, none, some, [], ◌∷◌, ◌===◌, if◌then◌else◌, lookup, contains,
}
use robot_maintanance.Js.{thousandths, template}
use robot_maintanance.Js.Engine.{Engine}
use robot_maintanance.Fleet.{whole, robot_id}
use robot_maintanance.Activities.{Mode, scanning, finding, fixing, Countdown, Activities}

-- `getCountdownLabel`
abbrev pub countdown_label : Mode → String
countdown_label scanning = "Scanning"
countdown_label finding = "Finding"
countdown_label fixing = "Fixing"

-- `Math.max(0, Math.ceil((expiresAt - now) / 1000))`, in seconds
abbrev pub seconds_left : ℕ → Countdown → ℕ
seconds_left now c = (c.expires_at - now + 999999) / 1000000

abbrev text_without_countdown : Activities → String → String
text_without_countdown a id =
    if contains id a.fixing
    then "Fixing..."
    else if contains id a.auto_searching
    then "Finding..."
    else if contains id a.auto_testing
    then "Scanning..."
    else ""

-- `getTestingCountdownText`
unfoldable pub testing_countdown_text : Engine → ℕ → Activities → String → String
testing_countdown_text js now a robot =
    let id = robot_id robot in
    if id === "" then "" else elim (lookup id a.countdowns) [
      | none ↦ text_without_countdown a id
      | some c ↦ template (
          countdown_label c.mode
          ∷ " "
          ∷ js.number_text (thousandths (whole (seconds_left now c)))
          ∷ "s"
          ∷ [])
    ]
