-- ===== src/Manage/Saving/Outcomes.antt =====
-- What saving a definition comes to, by the answers of the backend, and what the saved checks say
-- (assets/js/modules/dashboard/controllers/runtime/dashboardRuntimeManageRecorder.js).
use robot_maintanance.Prelude.{
  String, Bool, true, false, Option, none, some, is_empty, if◌then◌else◌, List, [], ◌∷◌, map, ◌===◌,
  ◌≡◌, refl, ap, sym, Bool-cases, ◌∙◌, ◌⊎◌, inl, inr,
}
use mathlib.Core.Path.{subst}
use robot_maintanance.Js.{Value, obj, no_fields, elems, array_or_empty, get}
use robot_maintanance.Js.Engine.{Engine}
use robot_maintanance.Normalize.{clean}
use robot_maintanance.Recorder.Draft.{Result, done, throw}
use robot_maintanance.Manage.{
  with_flag, resolve_check_run_at_connection, infer_uniform_run_at_connection,
  apply_run_at_connection, normalize_definitions_summary,
}
use robot_maintanance.Manage.Flags.{infer_uniform-apply, shown_flag, shown_flag-infer}
use robot_maintanance.Manage.Saving.{
  Result-cases, Reading, Parsed, parsed, unparsed, read_body, BackendReply, answered, rejected,
  Request, post_test, put_test_mappings, TestForm, items_of, saved_checks, test_payload,
  parse_json_input, body_of, selected_type_ids, summary_value, test_value,
}
use robot_maintanance.Manage.Saving.Pages.{
  DefinitionsPage, failed, ended, save_test, save_manage_test_definition,
}

-- What the backend sends with an acceptance: the value of its text, where that is empty or JSON.
-- A refusal, an exception and an acceptance that cannot be read are none.
abbrev parsed_value : Parsed → Option Value
parsed_value (unparsed m) = none
parsed_value (parsed v) = some v

abbrev pub accepted_value : Reading → BackendReply → Option Value
accepted_value x (rejected m) = none
accepted_value x (answered false raw) = none
accepted_value x (answered true raw) =
    if raw === "" then some (obj no_fields) else parsed_value (x.parse raw)

abbrev result_value : Result Value → Option Value
result_value (throw m) = none
result_value (done v) = some v

parsed_value-if :
    (b : Bool) (p q : Parsed)
    → parsed_value (if b then p else q) ≡ (if b then parsed_value p else parsed_value q)
parsed_value-if true p q = refl
parsed_value-if false p q = refl

read_body-accepted :
    (x : Reading) (message raw : String) (p : Parsed)
    → result_value (read_body x true raw message p) ≡ parsed_value p
read_body-accepted x message raw (unparsed m) = refl
read_body-accepted x message raw (parsed v) = refl

read_body-refused :
    (x : Reading) (message raw : String) (p : Parsed)
    → result_value (read_body x false raw message p) ≡ none
read_body-refused x message raw (unparsed m) = refl
read_body-refused x message raw (parsed v) = refl

-- Exactly an acceptance that can be read has a body.
body_of-accepted :
    (x : Reading) (message : String) (reply : BackendReply)
    → result_value (body_of x message reply) ≡ accepted_value x reply
unfolding body_of
body_of-accepted x message (rejected m) = refl
body_of-accepted x message (answered false raw) =
    read_body-refused x message raw (if raw === "" then parsed (obj no_fields) else x.parse raw)
body_of-accepted x message (answered true raw) =
    read_body-accepted x message raw (if raw === "" then parsed (obj no_fields) else x.parse raw)
    ∙ parsed_value-if (raw === "") (parsed (obj no_fields)) (x.parse raw)

-- The four ways in which saving a test ends, by what the backend accepts: the form is refused, the
-- test is, its mappings are, or all is saved.
pub data SaveOutcome (x : Reading) (f : TestForm) (saved mapped : BackendReply) (refreshed : Bool)
    (p : DefinitionsPage) : List Request × DefinitionsPage → Type 0 where
  invalid :
      (m : String)
      → test_payload x f ≡ throw m
      → SaveOutcome x f saved mapped refreshed p ([], failed m p)
  refused :
      (id m : String) (v : Value)
      → test_payload x f ≡ done (id, v)
      → accepted_value x saved ≡ none
      → SaveOutcome x f saved mapped refreshed p (post_test v ∷ [], failed m p)
  unmapped :
      (id m : String) (v body : Value)
      → test_payload x f ≡ done (id, v)
      → accepted_value x saved ≡ some body
      → accepted_value x mapped ≡ none
      → SaveOutcome x f saved mapped refreshed p
          (post_test v ∷ put_test_mappings id (selected_type_ids f.type_values) ∷ [], failed m p)
  stored :
      (id : String) (v body mapping : Value)
      → test_payload x f ≡ done (id, v)
      → accepted_value x saved ≡ some body
      → accepted_value x mapped ≡ some mapping
      → SaveOutcome x f saved mapped refreshed p (
        post_test v ∷ put_test_mappings id (selected_type_ids f.type_values) ∷ [],
        ended "Saved test definition" id " and updated mappings" refreshed (record p {
          definitions_summary = normalize_definitions_summary (summary_value mapping body);
        }),
      )

-- An answer is accepted exactly where its status is good and its text is empty or JSON. By that,
-- `saveManageTestDefinition` ends in one of four ways: the form is refused and nothing is sent; the
-- test is sent and not accepted; the test is accepted and its mappings are sent and not; or both are
-- accepted. Only in the last way does the page take another summary, the one of the answers; in the
-- others it keeps its own and the editor shows a message.
pub save_manage_test_definition-SaveOutcome :
    (x : Reading) (f : TestForm) (saved mapped : BackendReply) (refreshed : Bool)
    (p : DefinitionsPage)
    → SaveOutcome x f saved mapped refreshed p
        (save_manage_test_definition x f saved mapped refreshed p)
unfolding save_manage_test_definition save_test
save_manage_test_definition-SaveOutcome x f saved mapped refreshed p =
    let s = body_of-accepted x "Unable to save test definition." saved in
    let t = body_of-accepted x "Unable to update test mappings." mapped in
    elim (Result-cases (test_payload x f)) [
      | inl (m, e) ↦ rw e (invalid m e)
      | inr ((id, v), e) ↦ elim (Result-cases (body_of x "Unable to save test definition." saved)) [
        | inl (m, g) ↦ rw (e, g) (refused id m v e (sym s ∙ ap result_value g))
        | inr (body, g) ↦
            let accepted = sym s ∙ ap result_value g in
            elim (Result-cases (body_of x "Unable to update test mappings." mapped)) [
              | inl (m, h) ↦
                  rw (e, g, h) (unmapped id m v body e accepted (sym t ∙ ap result_value h))
              | inr (mapping, h) ↦
                  rw (e, g, h) (stored id v body mapping e accepted (sym t ∙ ap result_value h))
            ]
      ]
    ]

elems-items_of : (vs : List Value) → elems (items_of vs) ≡ vs
elems-items_of [] = refl
elems-items_of (v ∷ vs) = ap (λ r. v ∷ r) (elems-items_of vs)

-- The flag of the form, where there are checks to keep it.
abbrev pub kept_flag : List Value → Bool → Bool
kept_flag checks flag = if is_empty checks then true else flag

shown_flag-saved_checks :
    (js : Engine) (flag : Bool) (checks : List Value)
    → shown_flag js (saved_checks js flag checks) ≡ kept_flag (saved_checks js flag checks) flag
unfolding saved_checks apply_run_at_connection infer_uniform_run_at_connection
shown_flag-saved_checks js flag [] = shown_flag-infer js [] true refl
shown_flag-saved_checks js flag (c ∷ cs) =
    shown_flag-infer js (saved_checks js flag (c ∷ cs)) flag (
      infer_uniform-apply js flag true (with_flag js (resolve_check_run_at_connection c true) c)
        (map (λ check. with_flag js (resolve_check_run_at_connection check true) check) cs))

-- What an accepted form is sent as.
Accepted : Reading → TestForm → Type 0
Accepted x f =
    (execute : List Value) × (checks : List Value) × ((clean f.id "" === "") ≡ false)
    × (test_payload x f ≡ done (clean f.id "", test_value x f (clean f.id "") execute checks))

test_payload-cases :
    (x : Reading) (f : TestForm) → ((m : String) × (test_payload x f ≡ throw m)) ⊎ Accepted x f
unfolding test_payload Accepted
test_payload-cases x f = elim (Bool-cases (clean f.id "" === "")) [
  | inl e ↦ inl ("Test definition ID is required.", rw (e, test_payload) refl)
  | inr e ↦ elim (Result-cases (parse_json_input x f.execute "Execute steps")) [
    | inl (m, g) ↦ inl (m, rw (e, g, test_payload) refl)
    | inr (execute, g) ↦ elim (Result-cases (parse_json_input x f.checks "Checks")) [
      | inl (m, h) ↦ inl (m, rw (e, g, h, test_payload) refl)
      | inr (checks, h) ↦ inr (execute, checks, e, rw (e, g, h, test_payload) refl)
    ]
  ]
]

abbrev value_or : {A : Type 0} → A → Result A → A
value_or a (throw m) = a
value_or a (done b) = b

throw-done : {A : Type 0} {m : String} {a : A} → throw m ≡ done a → ⊥
throw-done e = cc

abbrev sent_checks : Value → List Value
sent_checks v = array_or_empty (get v "checks")

-- Where the form of a test is accepted, its id is not empty. When the sent definition is opened in
-- the editor again, the editor ticks the flag `runAtConnection` as the form did, if the definition
-- has checks; without checks it is always ticked, also where the form's was not.
pub test_payload-flag :
    (x : Reading) (f : TestForm) (id : String) (v : Value)
    → test_payload x f ≡ done (id, v)
    → ((id === "") ≡ false)
      × (shown_flag x.js (array_or_empty (get v "checks"))
          ≡ kept_flag (array_or_empty (get v "checks")) f.run_at_connection)
unfolding Accepted
test_payload-flag x f id v e = elim (test_payload-cases x f) [
  | inl (m, g) ↦ absurd (throw-done (sym g ∙ e))
  | inr (execute, checks, g, h) ↦
      subst
        (λ (r : String × Value).
          ((r.0 === "") ≡ false)
          × (shown_flag x.js (sent_checks r.1) ≡ kept_flag (sent_checks r.1) f.run_at_connection))
        (ap (value_or (id, v)) (sym h ∙ e))
        (
          g,
          subst (λ cs. shown_flag x.js cs ≡ kept_flag cs f.run_at_connection)
              (sym (elems-items_of (saved_checks x.js f.run_at_connection checks)))
              (shown_flag-saved_checks x.js f.run_at_connection checks),
        )
]
