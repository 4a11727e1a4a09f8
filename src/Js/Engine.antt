-- ===== src/Js/Engine.antt =====
-- What the code asks of the JavaScript engine's own tables and formats. They are arguments of the
-- model: every theorem holds whatever they are, unless it names a hypothesis on them.
use Prim.Native.Nat.{ℕ, suc, ◌*◌}
use Prim.Native.String.{String, ◌++◌}
use mathlib.Core.List.{List, [], ◌∷◌}
use robot_maintanance.Prelude.{◌===◌}
use mathlib.Core.Bool.{true, false}
use robot_maintanance.Js.{
  Number, nan, thousandths, Value, undefined, null, bool, num, str, arr, obj, Items, no_items, item,
  entries,
}

pub record Engine : Type 0 where
  -- `String(n)` of a number, and `Number(s)` of a text
  pub number_text : Number → String
  pub text_number : String → Number
  -- `s.toLowerCase()`, `s.toUpperCase()`
  pub lower : String → String
  pub upper : String → String
  -- `JSON.stringify(v, null, 2)`
  pub stringify : Value → String

-- An entry of a list as `join` writes it: `undefined` and `null` as nothing.
abbrev item_text : Value → String → String
item_text undefined t = ""
item_text null t = ""
item_text v t = t

-- `String(v)`
unfoldable mutual
  pub text_of : Engine → Value → String
  text_of js undefined = "undefined"
  text_of js null = "null"
  text_of js (bool true) = "true"
  text_of js (bool false) = "false"
  text_of js (num n) = js.number_text n
  text_of js (str s) = s
  text_of js (arr vs) = joined js vs
  text_of js (obj fs) = "[object Object]"

  pub joined : Engine → Items → String
  joined js no_items = ""
  joined js (item v no_items) = item_text v (text_of js v)
  joined js (item v (item w vs)) = item_text v (text_of js v) ++ "," ++ joined js (item w vs)

-- `Number(v)`
abbrev pub number_of : Engine → Value → Number
number_of js undefined = nan
number_of js null = thousandths 0
number_of js (bool true) = thousandths 1000
number_of js (bool false) = thousandths 0
number_of js (num n) = n
number_of js (str s) = js.text_number s
number_of js (arr vs) = js.text_number (joined js vs)
number_of js (obj fs) = nan

-- The entries of a list from a position on, with the positions as keys.
abbrev indexed : Engine → ℕ → Items → List (String × Value)
indexed js i no_items = []
indexed js i (item v vs) = (js.number_text (thousandths (i * 1000)), v) ∷ indexed js (suc i) vs

-- `Object.entries` of an object. The characters of a text, which are no objects, are left out:
-- every caller skips entries that are no objects.
abbrev pub object_entries : Engine → Value → List (String × Value)
object_entries js (obj fs) = entries fs
object_entries js (arr vs) = indexed js 0 vs
object_entries js _ = []

abbrev entry_at : String → List (String × Value) → Value
entry_at k [] = undefined
entry_at k ((j, v) ∷ es) = elim (j === k) [ true ↦ v | false ↦ entry_at k es ]

-- `v[key]` of an object, for a key of the payload.
abbrev pub own : Engine → Value → String → Value
own js v k = entry_at k (object_entries js v)
