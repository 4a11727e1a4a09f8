-- ===== src/Forms.antt =====
-- The forms of robots and robot types
-- (assets/js/modules/dashboard/controllers/runtime/dashboardRuntimeDetailShell.js): creating, editing
-- and deleting a robot and creating a robot type. Each is a function up to its
-- request and one from the answer on; the values of the inputs and the answers are arguments. Loading
-- the robots anew after an answer is in Activities/Reload and Routes.
pub mod Valid
pub mod Report
use robot_maintanance.Prelude.{
  String, Bool, true, false, not, ◌&&◌, ◌||◌, Option, none, some, List, [], ◌∷◌, any, map, ◌===◌,
  if◌then◌else◌,
}
use robot_maintanance.Js.{Value, str, get, template, trim}
use robot_maintanance.Js.Engine.{Engine}
use robot_maintanance.Normalize.{clean, normalize_text, normalize_type_id}
use robot_maintanance.Recorder.Token.{parse_comma_separated}
use robot_maintanance.Definitions.{RobotType}

-- The style of a message
pub data Style : Type 0 where
  ok warn error unstyled : Style

pub record RobotForm : Type 0 where
  pub name : String
  pub type_id : String
  pub ip : String
  pub model_file_name : String
  pub model_quality_base_path : String
  pub username : String
  pub password : String

-- The body of a request; `none` stands for `undefined`.
pub record RobotBody : Type 0 where
  pub name : String
  pub type_id : String
  pub ip : String
  pub model : Option (Option String × Option String)
  pub username : String
  pub password : String

pub data FormRequest : Type 0 where
  post_robot : RobotBody → FormRequest
  put_robot : String → RobotBody → FormRequest
  delete_robot : String → FormRequest
  post_robot_type : String → List String → FormRequest
  post_bug_report : String → FormRequest

-- An answer: accepted, refused with a text, or an exception.
pub data FormReply : Type 0 where
  accepted broken : FormReply
  refused : String → FormReply

-- What the state and the page keep of the forms.
pub record Forms : Type 0 where
  pub is_create_robot_in_progress : Bool
  pub is_edit_robot_in_progress : Bool
  pub is_delete_robot_in_progress : Bool
  pub is_create_robot_type_in_progress : Bool
  pub add_robot_message : String × Style
  pub edit_robot_message : String × Style
  pub add_robot_type_message : String × Style

abbrev text_or_none : String → Option String
text_or_none s = if s === "" then none else some s

abbrev form_model : String → String → Option (Option String × Option String)
form_model file path =
    if not (file === "") || not (path === "")
    then some (text_or_none file, text_or_none path)
    else none

-- The values of a form, each without the space around it.
unfoldable pub robot_body : RobotForm → RobotBody
robot_body f = record {
  name = clean f.name "";
  type_id = clean f.type_id "";
  ip = clean f.ip "";
  model = form_model (clean f.model_file_name "") (clean f.model_quality_base_path "");
  username = clean f.username "";
  password = clean f.password "";
}

abbrev pub lacks_field : RobotBody → Bool
lacks_field b =
    b.name === "" || b.type_id === "" || b.ip === "" || b.username === "" || b.password === ""

abbrev pub is_known_type : Engine → List RobotType → String → Bool
is_known_type js types type_id =
    any (λ t. normalize_type_id js (str t.type_id) === normalize_type_id js (str type_id)) types

abbrev required_message : String × Style
required_message = ("All fields except model fields are required.", error)

-- What `showAddRobotPage` does to the forms, whatever is under way.
unfoldable pub show_robot_forms : Forms → Forms
show_robot_forms s = record s {
  is_create_robot_in_progress = false;
  is_edit_robot_in_progress = false;
  is_delete_robot_in_progress = false;
  add_robot_message = ("", unstyled);
  edit_robot_message = ("", unstyled);
  add_robot_type_message = ("", unstyled);
}

-- A request that was refused shows its text.
abbrev refusal : String → String → String × Style
refusal text message = (if text === "" then message else text, error)

-- `createRobotFromForm`
unfoldable pub begin_create_robot :
    Engine → List RobotType → RobotForm → Forms → Forms × Option FormRequest
unfolding robot_body
begin_create_robot js types f s =
    let b = robot_body f in
    if s.is_create_robot_in_progress
    then (s, none)
    else if lacks_field b
    then (record s { add_robot_message = required_message }, none)
    else if not (is_known_type js types b.type_id)
    then (
      record s {
        add_robot_message = ("Selected type is invalid. Choose an existing type.", error);
      },
      none,
    )
    else (record s { is_create_robot_in_progress = true }, some (post_robot b))

abbrev created : FormReply → Forms → Forms
created accepted s = record s {
  add_robot_message = ("Robot created and written to config.", ok);
  edit_robot_message = ("New robot is ready for review/editing.", ok);
}
created (refused text) s = record s { add_robot_message = refusal text "Unable to create robot." }
created broken s = s

unfoldable pub end_create_robot : FormReply → Forms → Forms
end_create_robot reply s = record (created reply s) { is_create_robot_in_progress = false }

-- `saveRobotEditsFromForm`, for the value of the selection
unfoldable pub begin_edit_robot : String → RobotForm → Forms → Forms × Option FormRequest
unfolding robot_body
begin_edit_robot selected f s =
    let b = robot_body f in
    let id = clean selected "" in
    if id === "" || s.is_edit_robot_in_progress
    then (s, none)
    else if lacks_field b
    then (record s { edit_robot_message = required_message }, none)
    else (record s { is_edit_robot_in_progress = true }, some (put_robot id b))

abbrev edited : FormReply → Forms → Forms
edited accepted s = record s { edit_robot_message = ("Robot updated successfully.", ok) }
edited (refused text) s = record s { edit_robot_message = refusal text "Unable to update robot." }
edited broken s = s

unfoldable pub end_edit_robot : FormReply → Forms → Forms
end_edit_robot reply s = record (edited reply s) { is_edit_robot_in_progress = false }

-- `deleteSelectedRobotFromForm`, where `confirmed` is the answer of the dialog
unfoldable pub begin_delete_robot : String → Bool → Forms → Forms × Option FormRequest
begin_delete_robot selected confirmed s =
    let id = clean selected "" in
    if id === "" || s.is_delete_robot_in_progress
    then (s, none)
    else if not confirmed
    then (s, none)
    else (record s { is_delete_robot_in_progress = true }, some (delete_robot id))

abbrev deleted : FormReply → Forms → Forms
deleted accepted s = record s { edit_robot_message = ("Robot deleted from registry.", ok) }
deleted (refused text) s = record s { edit_robot_message = refusal text "Unable to delete robot." }
deleted broken s = s

unfoldable pub end_delete_robot : FormReply → Forms → Forms
end_delete_robot reply s = record (deleted reply s) { is_delete_robot_in_progress = false }

-- `createRobotTypeFromForm`, for the name and the topics
unfoldable pub begin_create_type : String → String → Forms → Forms × Option FormRequest
begin_create_type name topics s =
    if s.is_create_robot_type_in_progress
    then (s, none)
    else if clean name "" === ""
    then (record s { add_robot_type_message = ("Display name is required.", error) }, none)
    else (
      record s { is_create_robot_type_in_progress = true },
      some (post_robot_type (clean name "") (parse_comma_separated topics)),
    )

abbrev type_created : FormReply → Forms → Forms
type_created accepted s = record s {
  add_robot_type_message = ("Robot type created and saved.", ok);
}
type_created (refused text) s = record s {
  add_robot_type_message = refusal text "Unable to create robot type.";
}
type_created broken s = s

unfoldable pub end_create_type : FormReply → Forms → Forms
end_create_type reply s = record (type_created reply s) { is_create_robot_type_in_progress = false }

-- Ids and labels, the first of each id without regard to case.
abbrev pub add_entries : Engine → List String → List (String × String) → List (String × String)
add_entries js seen [] = []
add_entries js seen ((id, label) ∷ rest) =
    let key = normalize_type_id js (str id) in
    let more = add_entries js (key ∷ seen) rest in
    let fewer = add_entries js seen rest in
    if id === "" || any (λ k. k === key) seen then fewer else (id, label) ∷ more

-- `buildKnownTypeEntries`
unfoldable pub known_type_entries : Engine → List RobotType → List (String × String)
known_type_entries js types =
    add_entries js [] (map (λ t. (clean t.type_id "", clean t.label (clean t.type_id ""))) types)
