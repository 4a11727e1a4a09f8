-- ===== src/Manage/Saving.antt =====
-- What is sent to save definitions on the management page
-- (assets/js/modules/dashboard/controllers/runtime/dashboardRuntimeManageRecorder.js): the values of
-- the forms, the payloads and the answers to requests. `JSON.parse` and the answers are arguments.
pub mod Outcomes
pub mod Pages
use robot_maintanance.Prelude.{
  String, Bool, true, false, not, ◌≡◌, ◌⊎◌, inl, inr, refl, Option, none, some, List, [], ◌∷◌, ◌++◌,
  map, filter, ◌===◌, if◌then◌else◌,
}
use robot_maintanance.Js.{
  Value, Items, no_items, item, bool, str, arr, obj, no_fields, is_array, array_or_empty, get,
  truthy, template, trim,
}
use robot_maintanance.Js.Engine.{Engine, text_of}
use robot_maintanance.Normalize.{clean, normalize_text}
use robot_maintanance.Recorder.Draft.{Result, done, throw}
use robot_maintanance.Recorder.Token.{parse_comma_separated}
use robot_maintanance.Manage.{
  normalize_id_list, resolve_check_run_at_connection, fields_of, with_flag, apply_run_at_connection,
  DefinitionsSummary, normalize_definitions_summary, texts,
}

-- `JSON.parse`: a value, or the message of the exception.
pub data Parsed : Type 0 where
  parsed : Value → Parsed
  unparsed : String → Parsed

-- An answer of the backend with its text, or the message of the exception of `fetch`.
pub data BackendReply : Type 0 where
  answered : Bool → String → BackendReply
  rejected : String → BackendReply

pub data Request : Type 0 where
  post_test post_fix : Value → Request
  put_test_mappings put_fix_mappings : String → List String → Request
  delete_test delete_fix : String → Request

-- A result, with the equation that says which one it is.
pub Result-cases {ℓ} :
    {A : Type ℓ} (r : Result A) → ((m : String) × (r ≡ throw m)) ⊎ ((a : A) × (r ≡ done a))
Result-cases (throw m) = inl (m, refl)
Result-cases (done a) = inr (a, refl)

-- A part of a `try` block, with the requests that it sends.
abbrev pub Sending {ℓ} : Type ℓ → Type ℓ
Sending A = List Request × Result A

abbrev pub after_sending {ℓ κ} :
    {A : Type ℓ} {B : Type κ} → List Request → Result A → (A → Sending B) → Sending B
after_sending sent (throw m) f = (sent, throw m)
after_sending sent (done a) f = let r = f a in (sent ++ r.0, r.1)

infixl 5 ◌>>=◌
abbrev pub ◌>>=◌ {ℓ κ} : {A : Type ℓ} {B : Type κ} → Sending A → (A → Sending B) → Sending B
m >>= f = after_sending m.0 m.1 f

-- What every form of the page shares: the parser and the engine.
pub record Reading : Type 0 where
  pub js : Engine
  pub parse : String → Parsed

abbrev array_of : String → Parsed → Result (List Value)
array_of label (unparsed m) = throw (template (label ∷ " is invalid JSON: " ∷ m ∷ []))
array_of label (parsed v) =
    if is_array v
    then done (array_or_empty v)
    else throw (template (label ∷ " is invalid JSON: " ∷ label ∷ " must be a JSON array." ∷ []))

-- `parseJsonInput`, of the text of the input
unfoldable pub parse_json_input : Reading → String → String → Result (List Value)
parse_json_input x text label =
    let raw = clean text "" in if raw === "" then done [] else array_of label (x.parse raw)

abbrev pub read_body : Reading → Bool → String → String → Parsed → Result Value
read_body x ok raw message (unparsed m) = throw m
read_body x ok raw message (parsed body) =
    if ok
    then done body
    else throw (normalize_text x.js (get body "detail") (if raw === "" then message else raw))

-- The body of an answer: `raw ? JSON.parse(raw) : {}`, where a refused request throws its detail.
unfoldable pub body_of : Reading → String → BackendReply → Result Value
body_of x message (rejected m) = throw m
body_of x message (answered ok raw) =
    read_body x ok raw message (if raw === "" then parsed (obj no_fields) else x.parse raw)

-- The values of the form of a test, and the values of the robot types that are ticked.
pub record TestForm : Type 0 where
  pub id : String
  pub label : String
  pub execute : String
  pub checks : String
  pub run_at_connection : Bool
  pub type_values : List String

pub record FixForm : Type 0 where
  pub id : String
  pub label : String
  pub description : String
  pub execute : String
  pub post_tests : String
  pub run_at_connection : Bool
  pub type_values : List String

-- `getSelectedMappingTypeIds`
unfoldable pub selected_type_ids : List String → List String
selected_type_ids values = filter (λ id. not (id === "")) (map (λ v. clean v "") values)

abbrev pub items_of : List Value → Items
items_of [] = no_items
items_of (v ∷ vs) = item v (items_of vs)

-- The checks of a saved test: each with its own flag, and then with the one of the form.
unfoldable pub saved_checks : Engine → Bool → List Value → List Value
saved_checks js flag checks =
    apply_run_at_connection js
      (map (λ check. with_flag js (resolve_check_run_at_connection check true) check) checks) flag

abbrev pub test_value : Reading → TestForm → String → List Value → List Value → Value
test_value x f id execute checks = obj (
    fields_of (
      ("id", str id)
      ∷ ("label", str (clean f.label id))
      ∷ ("mode", str "orchestrate")
      ∷ ("enabled", bool true)
      ∷ ("execute", arr (items_of execute))
      ∷ ("checks", arr (items_of (saved_checks x.js f.run_at_connection checks)))
      ∷ []))

abbrev required : String → String → Result String
required message id = if id === "" then throw message else done id

abbrev without_request {ℓ} : {A : Type ℓ} → Result A → Sending A
without_request a = ([], a)

abbrev pub summary_value : Value → Value → Value
summary_value mapping body =
    if truthy (get mapping "summary")
    then get mapping "summary"
    else if truthy (get body "summary")
    then get body "summary"
    else body

-- The payload of `saveManageTestDefinition`
unfoldable pub test_payload : Reading → TestForm → Result (String × Value)
unfolding parse_json_input saved_checks
test_payload x f = payload.1
  where
    payload : Sending (String × Value)
    payload = do
      id ← without_request (required "Test definition ID is required." (clean f.id ""))
      execute ← without_request (parse_json_input x f.execute "Execute steps")
      checks ← without_request (parse_json_input x f.checks "Checks")
      without_request (done (id, test_value x f id execute checks))

abbrev fix_value : Reading → FixForm → String → List Value → Value
fix_value x f id execute = obj (
    fields_of (
      ("id", str id)
      ∷ ("label", str (clean f.label id))
      ∷ ("description", str (clean f.description ""))
      ∷ ("enabled", bool true)
      ∷ ("runAtConnection", bool f.run_at_connection)
      ∷ ("execute", arr (items_of execute))
      ∷ (
        "postTestIds",
        arr (
            items_of (
              texts
                (normalize_id_list x.js (texts (parse_comma_separated (clean f.post_tests "")))))),
      )
      ∷ []))

-- The payload of `saveManageFixDefinition`
unfoldable pub fix_payload : Reading → FixForm → Result (String × Value)
unfolding parse_json_input
fix_payload x f = payload.1
  where
    payload : Sending (String × Value)
    payload = do
      id ← without_request (required "Fix ID is required." (clean f.id ""))
      execute ← without_request (parse_json_input x f.execute "Execute steps")
      without_request (done (id, fix_value x f id execute))
