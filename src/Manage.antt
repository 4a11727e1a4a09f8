-- ===== src/Manage.antt =====
-- What the management page sends and keeps
-- (assets/js/modules/dashboard/controllers/runtime/dashboardRuntimeManageRecorder.js): lists of
-- ids, the flag `runAtConnection` of the checks, and the mappings of a recorded test. The answers
-- of the backend are arguments.
pub mod Ids
pub mod Flags
pub mod Saving
pub mod Loading
use robot_maintanance.Prelude.{
  String, Bool, true, false, not, ◌&&◌, ◌||◌, Option, none, some, List, [], ◌∷◌, ◌++◌, map, any,
  find?, is_empty, ◌===◌, if◌then◌else◌, Dict, insert, spread, contains,
}
use robot_maintanance.Js.{
  Value, Fields, bool, str, obj, no_fields, field, is_object, array_or_empty, get, truthy,
}
use robot_maintanance.Js.Engine.{Engine, object_entries}
use robot_maintanance.Normalize.{normalize_text}

-- The loop of `normalizeIdList`, where `seen` is also what was pushed, in the same order
unfoldable pub add_ids : Engine → List String → List Value → List String
unfolding contains
add_ids js seen [] = seen
add_ids js seen (v ∷ vs) =
    let id = normalize_text js v "" in
    add_ids js (if id === "" || contains id seen then seen else seen ++ id ∷ []) vs

-- `normalizeIdList`, of the items of the list
abbrev pub normalize_id_list : Engine → List Value → List String
normalize_id_list js vs = add_ids js [] vs

abbrev pub own_flag : Value → Option Bool
own_flag (bool b) = some b
own_flag _ = none

abbrev pub flag_or : Option Bool → Bool → Bool
flag_or (some b) c = b
flag_or none c = c

-- `resolveCheckRunAtConnection`
unfoldable pub resolve_check_run_at_connection : Value → Bool → Bool
resolve_check_run_at_connection check fallback =
    flag_or (own_flag (get check "runAtConnection"))
      (flag_or (own_flag (get (get check "metadata") "runAtConnection")) fallback)

abbrev pub fields_of : Dict Value → Fields
fields_of [] = no_fields
fields_of ((k, v) ∷ rest) = field k v (fields_of rest)

-- `applyRunAtConnection`
abbrev pub with_flag : Engine → Bool → Value → Value
with_flag js value entry =
    obj (fields_of (insert "runAtConnection" (bool value) (spread [] (object_entries js entry))))

unfoldable pub apply_run_at_connection : Engine → List Value → Bool → List Value
apply_run_at_connection js entries value = map (with_flag js value) entries

abbrev pub same : Bool → Bool → Bool
same true b = b
same false b = not b

abbrev pub uniform : Bool → List Bool → Option Bool
uniform fallback [] = some fallback
uniform fallback (first ∷ rest) =
    if any (λ v. not (same v first)) (first ∷ rest) then none else some first

-- `inferUniformRunAtConnection`: `none` where the flags differ.
unfoldable pub infer_uniform_run_at_connection : List Value → Bool → Option Bool
unfolding resolve_check_run_at_connection
infer_uniform_run_at_connection entries fallback =
    uniform fallback (map (λ e. resolve_check_run_at_connection e fallback) entries)

-- What is kept of `normalizeDefinitionsSummary`
pub record DefinitionsSummary : Type 0 where
  pub command_primitives : List Value
  pub tests : List Value
  pub checks : List Value
  pub fixes : List Value
  pub robot_types : List Value

unfoldable pub normalize_definitions_summary : Value → DefinitionsSummary
normalize_definitions_summary payload = record {
  command_primitives = array_or_empty (get payload "commandPrimitives");
  tests = array_or_empty (get payload "tests");
  checks = array_or_empty (get payload "checks");
  fixes = array_or_empty (get payload "fixes");
  robot_types = array_or_empty (get payload "robotTypes");
}

-- A request of `patchRobotTypeMapping`
pub record MappingRequest : Type 0 where
  pub type_id : String
  pub test_refs : List String
  pub fix_refs : List String

abbrev pub texts : List String → List Value
texts ids = map (λ id. str id) ids

abbrev pub type_with_id : Engine → String → List Value → Value
type_with_id js id types = found (find? (λ t. normalize_text js (get t "id") "" === id) types)
  where
    found : Option Value → Value
    found none = obj no_fields
    found (some t) = t

-- The request for one type: its references, with the new ones after them. `patchRobotTypeMapping`
-- normalises the lists once more.
unfoldable pub mapping_request :
    Engine → List String → String → DefinitionsSummary → String → MappingRequest
mapping_request js check_ids fix_id summary type_id =
    let existing = type_with_id js type_id summary.robot_types in
    let tests =
      normalize_id_list js (array_or_empty (get existing "testRefs") ++ texts check_ids) in
    let old_fixes = array_or_empty (get existing "fixRefs") in
    let fixes =
      normalize_id_list js (if fix_id === "" then old_fixes else old_fixes ++ str fix_id ∷ []) in
    record {
      type_id = type_id;
      test_refs = normalize_id_list js (texts tests);
      fix_refs = normalize_id_list js (texts fixes);
    }

abbrev summary_after : Value → DefinitionsSummary → DefinitionsSummary
unfolding normalize_definitions_summary
summary_after answer summary =
    if truthy (get answer "summary")
    then normalize_definitions_summary (get answer "summary")
    else summary

-- `applyRecorderMappings`: the requests and the summary afterwards, by the answers that the
-- backend gives. A request that fails, here a missing answer, ends the loop with its exception.
unfoldable pub apply_recorder_mappings :
    Engine
    → List String
    → String
    → List String
    → List Value
    → DefinitionsSummary
    → List MappingRequest × DefinitionsSummary
unfolding mapping_request summary_after
apply_recorder_mappings js check_ids fix_id [] answers summary = ([], summary)
apply_recorder_mappings js check_ids fix_id (t ∷ ts) [] summary =
    (mapping_request js check_ids fix_id summary t ∷ [], summary)
apply_recorder_mappings js check_ids fix_id (t ∷ ts) (a ∷ answers) summary =
    let rest = apply_recorder_mappings js check_ids fix_id ts answers (summary_after a summary) in
    (mapping_request js check_ids fix_id summary t ∷ rest.0, rest.1)
