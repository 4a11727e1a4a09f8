-- ===== src/Examples/Drafts.antt =====
-- The theorems on recorded tests, applied.
use robot_maintanance.Prelude.{String, true, false, some, [], ◌∷◌, filter, ◌≡◌, ◌≢◌, refl, contains}
use robot_maintanance.Js.{undefined, trim, template}
use robot_maintanance.Normalize.{clean}
use robot_maintanance.Recorder.Token.{token}
use robot_maintanance.Recorder.Token.Laws.{IsToken, token-IsToken}
use robot_maintanance.Recorder.Draft.{
  done, Draft, Output, OutputForm, Block, write, read, contains_string, blank, save_as_list,
  blocking_issues, is_read, add_or_update_output, store_output, output_of_form,
}
use robot_maintanance.Recorder.Blocks.{
  ReadForm, next_save_as, update_write_save_as, add_write_block, extract_output_text,
}
use robot_maintanance.Recorder.Publish.{Definition, build_test_definition}
use robot_maintanance.Recorder.Fresh.{next_save_as_fresh}
use robot_maintanance.Recorder.Invariant.Lists.{IsValid}
use robot_maintanance.Recorder.Publishing.{Publishes, KeepsTokens, publish_ready}
use robot_maintanance.Recorder.Sessions.{
  Reachable, start, edited, create, output, write_added, Reachable-IsValid_draft,
}
use robot_maintanance.Recorder.Dangling.{update_write_save_as-reads}
use robot_maintanance.Examples.{plain, plain_counts}

abbrev battery : Output
battery = record {
  key = "battery";
  label = "Battery";
  icon = "";
  pass_details = "";
  fail_details = "";
  run_at_connection = false;
}

-- A draft with an output, a write and a read of what it saves.
abbrev recorded : Draft
recorded = record {
  started = true;
  outputs = battery ∷ [];
  blocks =
      write "write_1" "rostopic list" "out_1" ""
      ∷ read "read_1" "battery" (contains_string "out_1" "ok")
      ∷ [];
  output_edit_key = "";
  read_edit_block_id = "";
  write_count = 1;
  read_count = 1;
}

keeps : KeepsTokens plain
keeps s h = refl

no_issues_recorded : blocking_issues plain recorded "my_test" ≡ []
unfolding blocking_issues token clean trim
no_issues_recorded = refl

publish_ready_example :
    (r : Definition) × (build_test_definition plain recorded "my_test" "My test" ≡ done r)
    × Publishes plain keeps recorded "my_test" r
publish_ready_example = publish_ready plain keeps recorded "my_test" "My test" no_issues_recorded

next_save_as_fresh_example :
    (s : String) × (next_save_as plain recorded.blocks ≡ some s)
    × (contains s (save_as_list recorded.blocks) ≡ false)
next_save_as_fresh_example = next_save_as_fresh plain plain_counts recorded.blocks

token-IsToken_example : IsToken (token plain "My test 1")
token-IsToken_example = token-IsToken plain "My test 1"

nothing_started :
    blocking_issues plain (record recorded { started = false }) "my_test"
    ≡ "Click \"Create new test\" to start a draft." ∷ []
unfolding blocking_issues token clean trim
nothing_started = refl

my_test_named : token plain "my_test" ≢ ""
unfolding token clean trim
my_test_named e = cc

-- The draft `blank true` with the output and without.
empty-IsValid : IsValid plain (blank true)
empty-IsValid =
    Reachable-IsValid_draft plain plain_counts (blank true)
      (edited (blank false) (blank true) start (create (blank false)))

command_named : clean "rostopic list" "" ≢ ""
unfolding clean trim
command_named e = cc

abbrev read_form : ReadForm
read_form = record {
  output_key = "battery";
  input_ref = "out_1";
  kind = "contains_string";
  needle = "ok";
  needles = "";
  lines = "";
  require_all = undefined;
}

abbrev renamed : Draft
renamed = record recorded {
  blocks =
      write "write_1" "rostopic list" "topics" ""
      ∷ read "read_1" "battery" (contains_string "out_1" "ok")
      ∷ [];
}

renaming : update_write_save_as plain recorded "write_1" "topics" ≡ done renamed
unfolding update_write_save_as token clean trim
renaming = refl

update_write_save_as-reads_example :
    (filter is_read renamed.blocks ≡ filter is_read recorded.blocks)
    × (blocking_issues plain renamed "my_test" ≡ blocking_issues plain recorded "my_test")
update_write_save_as-reads_example =
    update_write_save_as-reads plain recorded renamed "write_1" "topics" "my_test" renaming

abbrev form : OutputForm
form = record {
  key = "battery";
  label = "Battery";
  icon = "";
  pass_details = "full";
  fail_details = "empty";
  run_at_connection = undefined;
}

abbrev stored : Output
stored = record {
  key = "battery";
  label = "Battery";
  icon = "🧪";
  pass_details = "full";
  fail_details = "empty";
  run_at_connection = true;
}

abbrev with_output : Draft
with_output = record (blank true) { outputs = stored ∷ [] }

abbrev first_write : Block
first_write = write "write_1" "rostopic list" "out_1" ""

abbrev with_both : Draft
with_both = record with_output { blocks = first_write ∷ []; write_count = 1 }

output_stored : add_or_update_output plain (blank true) form ≡ done (with_output, stored, false)
unfolding add_or_update_output token clean trim store_output output_of_form
output_stored = refl

write_stored :
    add_write_block plain with_output "rostopic list" undefined ≡ done (with_both, first_write)
unfolding add_write_block clean trim next_save_as extract_output_text template contains
write_stored = refl

session : Reachable plain with_both
session =
    edited with_output with_both
      (edited (blank true) with_output
        (edited (blank false) (blank true) start (create (blank false)))
        (output (blank true) form (with_output, stored, false) output_stored))
      (write_added with_output "rostopic list" undefined (with_both, first_write) write_stored)

Reachable-IsValid_draft_example : IsValid plain with_both
Reachable-IsValid_draft_example = Reachable-IsValid_draft plain plain_counts with_both session
