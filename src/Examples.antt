-- ===== src/Examples.antt =====
-- An engine, robots and payloads on which the theorems are applied.
pub mod Drafts
pub mod Robots
pub mod Checks
pub mod Choices
pub mod Runs
pub mod Pages
pub mod Mappings
pub mod Terminals
pub mod FormValues
use Prim.Native.Char.{Char}
use robot_maintanance.Prelude.{
  ℕ, zero, suc, ◌*◌, ◌/◌, String, Bool, true, false, none, some, List, [], ◌∷◌, ◌≡◌, refl, arith,
  ap, sym, ◌∙◌,
}
use robot_maintanance.Js.{
  Value, Number, nan, thousandths, num, str, bool, arr, obj, no_items, item, no_fields, field,
}
use robot_maintanance.Js.TextLaws.{AllChars}
use robot_maintanance.Js.Engine.{Engine}
use robot_maintanance.Normalize.{ok, warning}
use robot_maintanance.Fleet.{Robot, Activity, TestResult, whole}
use robot_maintanance.Activities.{Activities, Moment}
use robot_maintanance.Definitions.{Config}
use robot_maintanance.Recorder.Draft.{count_text}
use robot_maintanance.Recorder.Fresh.{IsDigit, WritesCounts}

-- A number in strokes.
abbrev pub ones : ℕ → String
ones zero = String.[]
ones (suc n) = String.◌∷◌ "1" (ones n)

abbrev pub number_in_strokes : Number → String
number_in_strokes (thousandths n) = ones (n / 1000)
number_in_strokes _ = "NaN"

-- An engine that writes numbers in strokes, reads none and has one case of letters.
abbrev pub plain : Engine
plain = record {
  number_text = number_in_strokes;
  text_number = λ s. nan;
  lower = λ s. s;
  upper = λ s. s;
  stringify = λ v. "";
}

ones-digits : (n : ℕ) → AllChars IsDigit (ones n)
ones-digits zero = tt
ones-digits (suc n) = (refl, ones-digits n)

ones-distinct : (m n : ℕ) → ones m ≡ ones n → m ≡ n
ones-distinct zero zero e = refl
ones-distinct zero (suc n) e = cc
ones-distinct (suc m) zero e = cc
ones-distinct (suc m) (suc n) e = ap suc (ones-distinct m n (tail_eq e))
  where
    tail_of : String → String
    tail_of String.[] = String.[]
    tail_of (String.◌∷◌ c s) = s

    tail_eq : ones (suc m) ≡ ones (suc n) → ones m ≡ ones n
    tail_eq e = ap tail_of e

quotient : (n : ℕ) → n * 1000 / 1000 ≡ n
quotient n = ground arith

pub plain_counts : WritesCounts plain
plain_counts = record {
  digits = λ n. rw (quotient n) (ones-digits n);
  distinct = λ m n e. ones-distinct m n (ap ones (sym (quotient m)) ∙ e ∙ ap ones (quotient n));
}

abbrev pub idle : Activity
idle = record {
  searching = false;
  testing = false;
  phase = none;
  last_full_test_at = 0;
  last_full_test_source = none;
  updated_at = 0;
}

abbrev pub robot : String → Activity → Robot
robot id activity = record {
  id = id;
  name = id;
  type = "rover";
  type_id = "rover";
  tests =
      (
        "online",
        record {
          status = warning;
          value = some "unknown";
          details = some "Not checked yet";
          reason = some "";
          source = none;
          checked_at = none;
        },
      )
      ∷ [];
  test_definitions = [];
  auto_fixes = [];
  activity = activity;
  test_debug = [];
}

abbrev pub searching_now : Activity
searching_now = record idle { searching = true }

abbrev pub fleet : List Robot
fleet = robot "r1" idle ∷ robot "r2" searching_now ∷ robot " r3 " idle ∷ []

-- `r1` is being searched on this page.
abbrev pub busy : Activities
busy = record {
  testing = [];
  searching = "r1" ∷ [];
  fixing = [];
  auto_testing = [];
  auto_searching = [];
  auto_activity = [];
  countdowns = [];
  timer = false;
}

abbrev pub moment : Moment
moment = record { nodes = "r1" ∷ []; now = whole 5000 }

abbrev pub no_types : Config
no_types = record { robot_types = []; robot_type_by_id = []; test_definitions = [] }

-- A result of a run or of a check.
abbrev pub result : String → String → String → Value
result key id status = obj (
    field key (str id)
      (field "status" (str status) (field "details" (str "ssh timeout") no_fields)))

abbrev pub entry : String → Value
entry id = obj (
    field "id" (str id) (
      field "activity" (obj (field "testing" (bool true) no_fields)) (
        field "tests"
          (obj (
            field "battery"
              (obj (field "source" (str "live") (field "status" (str "ok") no_fields))) no_fields))
          no_fields)))
