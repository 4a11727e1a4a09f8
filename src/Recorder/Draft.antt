-- ===== src/Recorder/Draft.antt =====
-- The state of `WorkflowRecorderComponent` and its methods up to publishing. A method that throws
-- does so before it changes the state, so a failure is a message alone. The terminal view, the
-- status texts and the callbacks are not part of the state.
use robot_maintanance.Prelude.{
  ℕ, ◌*◌, String, Bool, true, false, not, ◌&&◌, Option, none, some, List, [], ◌∷◌, ◌++◌, is_empty,
  any, filter, find?, ◌===◌, if◌then◌else◌,
}
use robot_maintanance.Js.{Value, bool, template, thousandths}
use robot_maintanance.Js.Engine.{Engine}
use robot_maintanance.Normalize.{clean}
use robot_maintanance.Recorder.Token.{token}

pub data Result {ℓ} (A : Type ℓ) : Type ℓ where
  done : A → Result A
  throw : String → Result A

pub record Output : Type 0 where
  pub key : String
  pub label : String
  pub icon : String
  pub pass_details : String
  pub fail_details : String
  pub run_at_connection : Bool

pub data ReadSpec : Type 0 where
  contains_string : String → String → ReadSpec
  contains_any_string : String → List String → ReadSpec
  contains_lines_unordered : String → List String → Bool → ReadSpec

pub data Block : Type 0 where
  -- id, command, saveAs, outputText
  write : String → String → String → String → Block
  -- id, outputKey, read
  read : String → String → ReadSpec → Block

pub record Draft : Type 0 where
  pub started : Bool
  pub outputs : List Output
  pub blocks : List Block
  pub output_edit_key : String
  pub read_edit_block_id : String
  pub write_count : ℕ
  pub read_count : ℕ

abbrev pub input_ref : ReadSpec → String
input_ref (contains_string r needle) = r
input_ref (contains_any_string r needles) = r
input_ref (contains_lines_unordered r lines require_all) = r

abbrev pub block_id : Block → String
block_id (write i c s o) = i
block_id (read i k r) = i

abbrev pub is_write : Block → Bool
is_write (write i c s o) = true
is_write (read i k r) = false

abbrev pub is_read : Block → Bool
is_read b = not (is_write b)

-- The text of a count in a template literal.
abbrev pub count_text : Engine → ℕ → String
count_text js n = js.number_text (thousandths (n * 1000))

-- A fresh draft: `createNewTest` and, with `started` false, the constructor and `reset`.
abbrev pub blank : Bool → Draft
blank b = record {
  started = b;
  outputs = [];
  blocks = [];
  output_edit_key = "";
  read_edit_block_id = "";
  write_count = 0;
  read_count = 0;
}

-- The fields of the write blocks, in order: `saveAs` alone, and what `getWriteRefs` lists.
abbrev pub save_as_list : List Block → List String
save_as_list [] = []
save_as_list (write i c s o ∷ bs) = s ∷ save_as_list bs
save_as_list (read i k r ∷ bs) = save_as_list bs

-- `_outputHasReads`
abbrev pub reads_output : String → Block → Bool
reads_output key (write i c s o) = false
reads_output key (read i k r) = k === key

unfoldable pub output_has_reads : Draft → String → Bool
output_has_reads d key = any (reads_output key) d.blocks

-- The loop of `_blockingIssues` over the outputs.
unfoldable pub unread_issues : Draft → List Output → List String
unread_issues d [] = []
unread_issues d (o ∷ os) =
    let rest = unread_issues d os in
    if output_has_reads d o.key
    then rest
    else template ("Output '" ∷ o.key ∷ "' has no read block." ∷ []) ∷ rest

abbrev pub issue_if : Bool → String → List String
issue_if true message = message ∷ []
issue_if false message = []

-- `_blockingIssues`
unfoldable pub blocking_issues : Engine → Draft → String → List String
unfolding unread_issues output_has_reads
blocking_issues js d definition_id =
    issue_if (not d.started) "Click \"Create new test\" to start a draft."
    ++ (issue_if (is_empty (filter is_write d.blocks)) "Add at least one write block."
        ++ (issue_if (is_empty d.outputs) "Add at least one output."
            ++ (unread_issues d d.outputs
                ++ issue_if (token js definition_id === "") "Definition ID is required.")))

-- `getOutput` and `getReadBlock`
unfoldable pub get_output : Engine → Draft → String → Option Output
get_output js d key = find? (λ o. o.key === token js key) d.outputs

unfoldable pub get_read_block : Draft → String → Option Block
get_read_block d id = find? (λ b. (block_id b === clean id "") && is_read b) d.blocks

-- `setOutputEdit`, `clearOutputEdit`, `setReadEdit`, `clearReadEdit`
unfoldable pub set_output_edit : Engine → Draft → String → Draft
unfolding get_output
set_output_edit js d key = elim (get_output js d key) [
  | none ↦ record d { output_edit_key = "" }
  | some o ↦ record d { output_edit_key = o.key }
]

unfoldable pub clear_output_edit : Draft → Draft
clear_output_edit d = record d { output_edit_key = "" }

unfoldable pub set_read_edit : Draft → String → Draft
unfolding get_read_block
set_read_edit d id = elim (get_read_block d id) [
  | none ↦ record d { read_edit_block_id = "" }
  | some b ↦ record d { read_edit_block_id = block_id b }
]

unfoldable pub clear_read_edit : Draft → Draft
clear_read_edit d = record d { read_edit_block_id = "" }

-- The arguments of `addOrUpdateOutput`, as the form gives them.
pub record OutputForm : Type 0 where
  pub key : String
  pub label : String
  pub icon : String
  pub pass_details : String
  pub fail_details : String
  pub run_at_connection : Value

-- `value !== false`
abbrev pub is_not_false : Value → Bool
is_not_false (bool false) = false
is_not_false _ = true

-- The `payload` of `addOrUpdateOutput`.
unfoldable pub output_of_form : OutputForm → String → Output
output_of_form f key = record {
  key = key;
  label = clean f.label key;
  icon = clean f.icon "🧪";
  pass_details = clean f.pass_details (template (clean f.label key ∷ " checks passed." ∷ []));
  fail_details = clean f.fail_details (template (clean f.label key ∷ " checks failed." ∷ []));
  run_at_connection = is_not_false f.run_at_connection;
}

-- `this.outputs[findIndex(…)] = payload`
unfoldable pub replace_output : String → Output → List Output → List Output
replace_output key p [] = []
replace_output key p (o ∷ os) = if o.key === key then p ∷ os else o ∷ replace_output key p os

-- The reads of a renamed output follow it.
unfoldable pub rename_reads : String → String → List Block → List Block
rename_reads old new [] = []
rename_reads old new (write i c s o ∷ bs) = write i c s o ∷ rename_reads old new bs
rename_reads old new (read i k r ∷ bs) =
    read i (if k === old then new else k) r ∷ rename_reads old new bs

abbrev pub has_key : String → List Output → Bool
has_key key os = any (λ o. o.key === key) os

-- The part of `addOrUpdateOutput` that follows the test for a duplicate.
unfoldable pub store_output : Draft → String → Output → Result (Draft × Output × Bool)
unfolding replace_output rename_reads
store_output d key payload =
    if d.output_edit_key === ""
    then done (record d { outputs = d.outputs ++ payload ∷ [] }, payload, false)
    else if has_key d.output_edit_key d.outputs
    then done (
      record d {
        outputs = replace_output d.output_edit_key payload d.outputs;
        blocks = rename_reads d.output_edit_key key d.blocks;
        output_edit_key = "";
      },
      payload,
      true,
    )
    else throw "Edited output was not found."

-- `addOrUpdateOutput`
unfoldable pub add_or_update_output : Engine → Draft → OutputForm → Result (Draft × Output × Bool)
unfolding output_of_form
add_or_update_output js d f =
    let key = token js f.key in
    if not d.started
    then throw "Create a new test draft first."
    else if key === ""
    then throw "Output key is required."
    else if has_key key d.outputs && not (d.output_edit_key === key)
    then throw (template ("Output '" ∷ key ∷ "' already exists." ∷ []))
    else store_output d key (output_of_form f key)

-- `removeOutput`
unfoldable pub remove_output : Engine → Draft → String → Draft
remove_output js d output_key =
    let key = token js output_key in
    record d {
      outputs = filter (λ o. not (o.key === key)) d.outputs;
      blocks = filter (λ b. not (reads_output key b)) d.blocks;
      output_edit_key = if d.output_edit_key === key then "" else d.output_edit_key;
    }
