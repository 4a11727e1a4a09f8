-- ===== src/Recorder/Publish.antt =====
-- `getCheckIdsForDefinition` and `buildTestDefinition`.
use robot_maintanance.Prelude.{
  ℕ, ◌+◌, String, Bool, true, Option, none, some, List, [], ◌∷◌, map, ◌===◌, if◌then◌else◌,
}
use robot_maintanance.Js.{template}
use robot_maintanance.Js.Engine.{Engine}
use robot_maintanance.Normalize.{Status, ok, warning, error, clean}
use robot_maintanance.Recorder.Token.{token, normalize_token}
use robot_maintanance.Recorder.Draft.{
  Result, done, throw, Output, ReadSpec, Block, write, read, Draft, count_text, blocking_issues,
}

-- A rule, or `{ kind: 'all_of', rules }`.
pub data CompiledRead : Type 0 where
  single : ReadSpec → CompiledRead
  all_of : List ReadSpec → CompiledRead

pub record Step : Type 0 where
  pub id : String
  pub command : String
  pub save_as : String

pub record Outcome : Type 0 where
  pub status : Status
  pub value : String
  pub details : String

pub record Check : Type 0 where
  pub id : String
  pub label : String
  pub icon : String
  pub run_at_connection : Bool
  pub manual_only : Bool
  pub enabled : Bool
  pub default_status : Status
  pub default_value : String
  pub default_details : String
  pub read : CompiledRead
  pub pass : Outcome
  pub fail : Outcome

pub record Definition : Type 0 where
  pub id : String
  pub label : String
  pub enabled : Bool
  pub mode : String
  pub execute : List Step
  pub checks : List Check

-- `_readRulesForOutput`
unfoldable pub read_rules_for : String → List Block → List ReadSpec
read_rules_for key [] = []
read_rules_for key (write i c s o ∷ bs) = read_rules_for key bs
read_rules_for key (read i k r ∷ bs) =
    let rest = read_rules_for key bs in if k === key then r ∷ rest else rest

abbrev pub check_id : Engine → String → Output → String
check_id js definition_id o =
    template (definition_id ∷ "__" ∷ normalize_token js o.key "output" ∷ [])

-- `getCheckIdsForDefinition`
unfoldable pub get_check_ids : Engine → Draft → String → List String
get_check_ids js d definition_id =
    if token js definition_id === ""
    then []
    else map (check_id js (token js definition_id)) d.outputs

-- The write blocks as steps, numbered from the first argument.
unfoldable pub steps_from : Engine → ℕ → List Block → List Step
steps_from js n [] = []
steps_from js n (read i k r ∷ bs) = steps_from js n bs
steps_from js n (write i c s o ∷ bs) =
    record { id = template ("step_" ∷ count_text js n ∷ []); command = c; save_as = s }
    ∷ steps_from js (n + 1) bs

unfoldable pub check_of : Engine → String → Output → CompiledRead → Check
check_of js definition_id o compiled = record {
  id = check_id js definition_id o;
  label = o.label;
  icon = o.icon;
  run_at_connection = o.run_at_connection;
  manual_only = true;
  enabled = true;
  default_status = warning;
  default_value = "unknown";
  default_details = "Not checked yet";
  read = compiled;
  pass = record { status = ok; value = "all_present"; details = o.pass_details };
  fail = record { status = error; value = "missing"; details = o.fail_details };
}

-- The read of a check; `none` is the throw on an output without rules.
abbrev pub compile : List ReadSpec → Option CompiledRead
compile [] = none
compile (r ∷ []) = some (single r)
compile (r ∷ s ∷ rs) = some (all_of (r ∷ s ∷ rs))

abbrev add_check :
    Engine → String → Output → Option CompiledRead → Result (List Check) → Result (List Check)
add_check js id o none rest = throw (template ("Output '" ∷ o.key ∷ "' has no read blocks." ∷ []))
add_check js id o (some c) (throw message) = throw message
add_check js id o (some c) (done cs) = done (check_of js id o c ∷ cs)

unfoldable pub checks_of : Engine → String → List Block → List Output → Result (List Check)
unfolding read_rules_for check_of
checks_of js id bs [] = done []
checks_of js id bs (o ∷ os) =
    add_check js id o (compile (read_rules_for o.key bs)) (checks_of js id bs os)

-- The value that `buildTestDefinition` returns.
abbrev pub definition_of : Engine → Draft → String → String → List Check → Definition
definition_of js d id label checks = record {
  id = id;
  label = clean label id;
  enabled = true;
  mode = "orchestrate";
  execute = steps_from js 1 d.blocks;
  checks = checks;
}

abbrev finish : Engine → Draft → String → String → Result (List Check) → Result Definition
finish js d id label (throw message) = throw message
finish js d id label (done checks) = done (definition_of js d id label checks)

abbrev or_issue : List String → Result Definition → Result Definition
or_issue [] r = r
or_issue (issue ∷ issues) r = throw issue

-- `buildTestDefinition`
unfoldable pub build_test_definition : Engine → Draft → String → String → Result Definition
unfolding steps_from checks_of
build_test_definition js d definition_id label =
    let id = token js definition_id in
    if id === ""
    then throw "Definition ID is required."
    else or_issue (blocking_issues js d id)
        (finish js d id label (checks_of js id d.blocks d.outputs))
