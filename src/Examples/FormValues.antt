-- ===== src/Examples/FormValues.antt =====
-- A filled form of a robot.
use robot_maintanance.Prelude.{true, false, [], none}
use robot_maintanance.Definitions.{RobotType}
use robot_maintanance.Forms.{RobotForm, RobotBody, Forms, warn}

abbrev rover : RobotType
rover = record {
  type_id = "rover";
  type_key = "rover";
  label = "Rover";
  topics = [];
  tests = [];
  auto_fixes = [];
  model = none;
}

abbrev filled : RobotForm
filled = record {
  name = " Arm ";
  type_id = "rover";
  ip = "10.0.0.7";
  model_file_name = "";
  model_quality_base_path = "";
  username = "ops";
  password = "secret";
}

abbrev free_forms : Forms
free_forms = record {
  is_create_robot_in_progress = false;
  is_edit_robot_in_progress = false;
  is_delete_robot_in_progress = false;
  is_create_robot_type_in_progress = false;
  add_robot_message = ("", warn);
  edit_robot_message = ("", warn);
  add_robot_type_message = ("", warn);
}

abbrev sent_body : RobotBody
sent_body = record {
  name = "Arm";
  type_id = "rover";
  ip = "10.0.0.7";
  model = none;
  username = "ops";
  password = "secret";
}

-- A robot is sent, and the answer to an earlier change of another one comes.
abbrev sent_forms : Forms
sent_forms = record free_forms { is_create_robot_in_progress = true }
