-- ===== src/Manage/Flags.antt =====
-- The flag that is written to all checks is the one that is read from them and that the editor of
-- a test shows (assets/js/modules/dashboard/controllers/runtime/dashboardRuntimeManageRecorder.js).
use robot_maintanance.Prelude.{
  String, Bool, true, false, not, Option, none, some, if◌then◌else◌, List, [], ◌∷◌, map, any, ◌≡◌,
  refl, ◌∙◌, arith, eq_iff, Dict, insert, spread,
}
use mathlib.Core.Path.{ap}
use robot_maintanance.Js.{Value, bool, str, obj, no_fields, truthy, get, get_field}
use robot_maintanance.Js.Engine.{Engine, object_entries}
use robot_maintanance.Normalize.{normalize_text}
use robot_maintanance.Manage.{
  resolve_check_run_at_connection, fields_of, with_flag, apply_run_at_connection,
  infer_uniform_run_at_connection, same, uniform,
}

-- `value || other`
abbrev or_value : Value → Value → Value
or_value v other = if truthy v then v else other

abbrev outcome_value : String → String → String → Value
outcome_value status value details =
    obj (fields_of (("status", str status) ∷ ("value", str value) ∷ ("details", str details) ∷ []))

-- A check as the editor of a test shows it, and the flag that the editor then ticks.
unfoldable editable_check : Engine → Value → Value
editable_check js check = obj (
    fields_of (
      ("id", str (normalize_text js (get check "id") ""))
      ∷ ("label", str (normalize_text js (get check "label") ""))
      ∷ ("icon", str (normalize_text js (get check "icon") ""))
      ∷ ("runAtConnection", bool (resolve_check_run_at_connection check true))
      ∷ ("read", or_value (get check "read") (obj no_fields))
      ∷ ("pass", or_value (get check "pass") (outcome_value "ok" "present" "Check passed."))
      ∷ ("fail", or_value (get check "fail") (outcome_value "error" "missing" "Check failed."))
      ∷ []))

abbrev ticked : Option Bool → Bool
ticked none = true
ticked (some flag) = flag

unfoldable pub shown_flag : Engine → List Value → Bool
unfolding editable_check infer_uniform_run_at_connection
shown_flag js checks =
    ticked (infer_uniform_run_at_connection (map (editable_check js) checks) true)

resolve-editable_check :
    (js : Engine) (check : Value)
    → resolve_check_run_at_connection (editable_check js check) true
      ≡ resolve_check_run_at_connection check true
unfolding resolve_check_run_at_connection editable_check
resolve-editable_check js check = refl

infer_uniform-editable :
    (js : Engine) (checks : List Value)
    → map (λ e. resolve_check_run_at_connection e true) (map (editable_check js) checks)
      ≡ map (λ e. resolve_check_run_at_connection e true) checks
infer_uniform-editable js [] = refl
infer_uniform-editable js (c ∷ cs) =
    rw (resolve-editable_check js c)
      (ap (λ r. resolve_check_run_at_connection c true ∷ r) (infer_uniform-editable js cs))

pub shown_flag-infer :
    (js : Engine) (checks : List Value) (flag : Bool)
    → infer_uniform_run_at_connection checks true ≡ some flag
    → shown_flag js checks ≡ flag
unfolding shown_flag infer_uniform_run_at_connection
shown_flag-infer js checks flag e =
    ap ticked (ap (uniform true) (infer_uniform-editable js checks) ∙ e)

get-insert : (k : String) (v : Value) (d : Dict Value) → get_field k (fields_of (insert k v d)) ≡ v
unfolding insert
get-insert k v [] = ground (arith, eq_iff k k)
get-insert k v ((j, w) ∷ rest) = ground (arith, eq_iff j k, eq_iff k k, get-insert k v rest)

resolve-with_flag :
    (js : Engine) (value fallback : Bool) (entry : Value)
    → resolve_check_run_at_connection (with_flag js value entry) fallback ≡ value
unfolding resolve_check_run_at_connection
resolve-with_flag js value fallback entry =
    rw (get-insert "runAtConnection" (bool value) (spread [] (object_entries js entry))) refl

flags-with_flag :
    (js : Engine) (value fallback : Bool) (entries : List Value)
    → map (λ e. resolve_check_run_at_connection e fallback) (map (with_flag js value) entries)
      ≡ map (λ e. value) entries
flags-with_flag js value fallback [] = refl
flags-with_flag js value fallback (e ∷ es) =
    rw (resolve-with_flag js value fallback e)
      (ap (λ r. value ∷ r) (flags-with_flag js value fallback es))

any-same :
    (value : Bool) (entries : List Value)
    → any (λ v. not (same v value)) (map (λ e. value) entries) ≡ false
any-same value [] = refl
any-same true (e ∷ es) = any-same true es
any-same false (e ∷ es) = any-same false es

uniform-same :
    (value fallback : Bool) (entry : Value) (entries : List Value)
    → uniform fallback (map (λ e. value) (entry ∷ entries)) ≡ some value
uniform-same true fallback entry entries = rw (any-same true entries) refl
uniform-same false fallback entry entries = rw (any-same false entries) refl

-- The flag that is applied to a list of checks, which is not empty, is read back from it, whatever
-- the checks had before.
pub infer_uniform-apply :
    (js : Engine) (value fallback : Bool) (entry : Value) (entries : List Value)
    → infer_uniform_run_at_connection (apply_run_at_connection js (entry ∷ entries) value) fallback
      ≡ some value
unfolding infer_uniform_run_at_connection apply_run_at_connection
infer_uniform-apply js value fallback entry entries =
    ap (uniform fallback) (flags-with_flag js value fallback (entry ∷ entries))
    ∙ uniform-same value fallback entry entries
