-- ===== src/Forms/Valid.antt =====
-- What the forms send (assets/js/modules/dashboard/controllers/runtime/dashboardRuntimeDetailShell.js).
use robot_maintanance.Prelude.{
  String, Bool, true, false, Option, none, some, List, ◌≡◌, if◌then◌else◌, not,
}
use robot_maintanance.Js.Engine.{Engine}
use robot_maintanance.Definitions.{RobotType}
use robot_maintanance.Forms.{
  RobotForm, RobotBody, robot_body, post_robot, FormReply, Forms, lacks_field, is_known_type,
  begin_create_robot, end_create_robot, show_robot_forms, begin_edit_robot, end_edit_robot,
  begin_delete_robot, end_delete_robot, begin_create_type, end_create_type,
}

-- What happens to the forms while the page stays open and no robot that was sent is answered: all of
-- them are submitted, and those that change or delete a robot or create a type are answered.
pub data FormStep (js : Engine) (types : List RobotType) : Forms → Forms → Type 0 where
  creates : (f : RobotForm) (s : Forms) → FormStep js types s (begin_create_robot js types f s).0
  edits :
      (id : String) (f : RobotForm) (s : Forms) → FormStep js types s (begin_edit_robot id f s).0
  edit_ends : (r : FormReply) (s : Forms) → FormStep js types s (end_edit_robot r s)
  deletes :
      (id : String) (confirmed : Bool) (s : Forms)
      → FormStep js types s (begin_delete_robot id confirmed s).0
  delete_ends : (r : FormReply) (s : Forms) → FormStep js types s (end_delete_robot r s)
  creates_type :
      (name topics : String) (s : Forms) → FormStep js types s (begin_create_type name topics s).0
  type_ends : (r : FormReply) (s : Forms) → FormStep js types s (end_create_type r s)

pub data Meanwhile (js : Engine) (types : List RobotType) (u : Forms) : Forms → Type 0 where
  at_once : Meanwhile js types u u
  after : (v w : Forms) → Meanwhile js types u v → FormStep js types v w → Meanwhile js types u w

-- What is known of a robot that is sent, and of a later state of the forms.
pub record IsSent (js : Engine) (types : List RobotType) (f g : RobotForm) (reply : FormReply)
    (s v : Forms) (b : RobotBody) : Type 0 where
  pub complete : lacks_field b ≡ false
  pub known : is_known_type js types b.type_id ≡ true
  pub body : b ≡ robot_body f
  pub free : s.is_create_robot_in_progress ≡ false
  pub locked : begin_create_robot js types g v ≡ (v, none)
  pub reopened :
      begin_create_robot js types f (show_robot_forms v)
      ≡ (record (show_robot_forms v) { is_create_robot_in_progress = true }, some (post_robot b))
  pub unlocked : (end_create_robot reply v).is_create_robot_in_progress ≡ false

-- The shape of a form: three tests and a request.
abbrev tested_request :
    {A : Type 0} {B : Type 0} → Bool → Bool → Bool → A → A → A → A → B → A × Option B
tested_request p l k s m n w r =
    if p then (s, none) else if l then (m, none) else if not k then (n, none) else (w, some r)
