-- ===== src/Manage/Saving/Pages.antt =====
-- Saving and deleting definitions on the management page, from the form to what the page shows
-- (assets/js/modules/dashboard/controllers/runtime/dashboardRuntimeManageRecorder.js).
use robot_maintanance.Prelude.{String, Bool, not, List, [], ◌∷◌, ◌===◌, if◌then◌else◌}
use robot_maintanance.Js.{Value, obj, no_fields, get, truthy, template}
use robot_maintanance.Js.Engine.{text_of}
use robot_maintanance.Normalize.{clean}
use robot_maintanance.Recorder.Draft.{Result, done, throw}
use robot_maintanance.Manage.{DefinitionsSummary, normalize_definitions_summary}
use robot_maintanance.Manage.Saving.{
  ◌>>=◌, Parsed, parsed, unparsed, BackendReply, answered, rejected, Request, post_test, post_fix,
  put_test_mappings, put_fix_mappings, delete_test, delete_fix, Sending, Reading, body_of, TestForm,
  FixForm, selected_type_ids, without_request, summary_value, test_payload, fix_payload,
}

-- The status of an editor or a tab, with its kind.
pub data StatusKind : Type 0 where
  ok warn error : StatusKind

-- What the page keeps of the definitions, and what it says.
pub record DefinitionsPage : Type 0 where
  pub definitions_summary : DefinitionsSummary
  pub is_manage_summary_loading : Bool
  pub editor_status : String × StatusKind
  pub tab_status : String × StatusKind

abbrev pub failed : String → DefinitionsPage → DefinitionsPage
failed message p = record p { editor_status = (message, error) }

abbrev pub ended : String → String → String → Bool → DefinitionsPage → DefinitionsPage
ended verb id more refreshed p = record p {
  editor_status = (template (verb ∷ " '" ∷ id ∷ "'" ∷ more ∷ "." ∷ []), ok);
  tab_status = if refreshed then (template (verb ∷ " '" ∷ id ∷ "'." ∷ []), ok) else (
    template
        (verb ∷ " '" ∷ id ∷ "', but robot views did not refresh. Reload the page if needed." ∷ []),
    warn,
  );
}

-- The end of the `try` block: its value, or what `catch` shows.
abbrev pub ending :
    String → String → Bool → DefinitionsPage → Result (String × Value) → DefinitionsPage
unfolding normalize_definitions_summary
ending verb more refreshed p (throw message) = failed message p
ending verb more refreshed p (done (id, summary)) =
    ended verb id more refreshed
      (record p { definitions_summary = normalize_definitions_summary summary })

abbrev pub sending : Reading → Request → String → BackendReply → Sending Value
unfolding body_of
sending x request message reply = (request ∷ [], body_of x message reply)

-- The `try` blocks of `saveManageTestDefinition` and `saveManageFixDefinition`: the summary that
-- they take, by the answers to their two requests.
unfoldable pub save_test :
    Reading → TestForm → BackendReply → BackendReply → Sending (String × Value)
unfolding sending test_payload selected_type_ids
save_test x f saved mapped = do
  (id, payload) ← without_request (test_payload x f)
  body ← sending x (post_test payload) "Unable to save test definition." saved
  mapping ←
      sending x (put_test_mappings id (selected_type_ids f.type_values))
        "Unable to update test mappings." mapped
  without_request (done (id, summary_value mapping body))

unfoldable pub save_fix : Reading → FixForm → BackendReply → BackendReply → Sending (String × Value)
unfolding sending fix_payload selected_type_ids
save_fix x f saved mapped = do
  (id, payload) ← without_request (fix_payload x f)
  body ← sending x (post_fix payload) "Unable to save fix definition." saved
  mapping ←
      sending x (put_fix_mappings id (selected_type_ids f.type_values))
        "Unable to update fix mappings." mapped
  without_request (done (id, summary_value mapping body))

-- `saveManageTestDefinition`
unfoldable pub save_manage_test_definition :
    Reading
    → TestForm
    → BackendReply
    → BackendReply
    → Bool
    → DefinitionsPage
    → List Request × DefinitionsPage
unfolding save_test ending
save_manage_test_definition x f saved mapped refreshed p =
    let r = save_test x f saved mapped in
    (r.0, ending "Saved test definition" " and updated mappings" refreshed p r.1)

-- `saveManageFixDefinition`
unfoldable pub save_manage_fix_definition :
    Reading
    → FixForm
    → BackendReply
    → BackendReply
    → Bool
    → DefinitionsPage
    → List Request × DefinitionsPage
unfolding save_fix ending
save_manage_fix_definition x f saved mapped refreshed p =
    let r = save_fix x f saved mapped in
    (r.0, ending "Saved fix definition" " and updated mappings" refreshed p r.1)

-- The body of an answer to a deletion, which is read as JSON whatever its text.
abbrev deletion_body : Reading → String → BackendReply → Result Value
deletion_body x message (rejected m) = throw m
deletion_body x message (answered good raw) = deleted_body (x.parse raw)
  where
    deleted_body : Parsed → Result Value
    deleted_body (unparsed m) = throw m
    deleted_body (parsed body) =
        if good
        then done body
        else throw
            (if truthy (get body "detail") then text_of x.js (get body "detail") else message)

unfoldable pub delete_definition :
    Reading → Request → String → String → BackendReply → Sending (String × Value)
delete_definition x request id message reply = do
  body ← (request ∷ [], deletion_body x message reply)
  without_request (done (id, summary_value (obj no_fields) body))

-- `deleteManageTestDefinition`, where `confirmed` is the answer of the dialog
unfoldable pub delete_manage_test_definition :
    Reading → String → Bool → BackendReply → Bool → DefinitionsPage → List Request × DefinitionsPage
unfolding delete_definition ending
delete_manage_test_definition x value confirmed reply refreshed p =
    let id = clean value "" in
    let r = delete_definition x (delete_test id) id "Unable to delete test definition." reply in
    if id === ""
    then ([], p)
    else if not confirmed
    then ([], p)
    else (r.0, ending "Deleted test definition" "" refreshed p r.1)

-- `deleteManageFixDefinition`
unfoldable pub delete_manage_fix_definition :
    Reading → String → Bool → BackendReply → Bool → DefinitionsPage → List Request × DefinitionsPage
unfolding delete_definition ending
delete_manage_fix_definition x value confirmed reply refreshed p =
    let id = clean value "" in
    let r = delete_definition x (delete_fix id) id "Unable to delete fix definition." reply in
    if id === ""
    then ([], p)
    else if not confirmed
    then ([], p)
    else (r.0, ending "Deleted fix definition" "" refreshed p r.1)
