-- ===== src/Js.antt =====
-- The JavaScript values that the dashboard handles: decoded JSON, `undefined` included, with the
-- conversions and tests of the language that the code applies to them.
mod Text
pub mod Engine
pub mod TextLaws
use Prim.Native.Nat.{ℕ}
use Prim.Native.String.{String, ◌++◌}
use mathlib.Core.Bool.{Bool, true, false, not}
use mathlib.Core.List.{List, [], ◌∷◌}
use robot_maintanance.Prelude.{◌===◌}
unfoldable pub use Text.{
  is_space, skip_while, strip_end, strip, trim, template, includes, starts_with, slice,
  without_hash, until_slash, after_slash, second_part,
}

-- A number. The finite ones are whole numbers of thousandths, `below_zero n` being
-- -(n + 1) thousandths.
pub data Number : Type 0 where
  nan infinite minus_infinite : Number
  below_zero thousandths : ℕ → Number

mutual
  pub data Value : Type 0 where
    undefined null : Value
    bool : Bool → Value
    num : Number → Value
    str : String → Value
    arr : Items → Value
    obj : Fields → Value

  pub data Items : Type 0 where
    no_items : Items
    item : Value → Items → Items

  pub data Fields : Type 0 where
    no_fields : Fields
    field : String → Value → Fields → Fields

abbrev pub elems : Items → List Value
elems no_items = []
elems (item v vs) = v ∷ elems vs

abbrev pub entries : Fields → List (String × Value)
entries no_fields = []
entries (field k v fs) = (k, v) ∷ entries fs

-- `typeof v === 'object'` of a value that is not `null`; arrays are objects.
abbrev pub is_object : Value → Bool
is_object (arr vs) = true
is_object (obj fs) = true
is_object _ = false

-- `Array.isArray`
abbrev pub is_array : Value → Bool
is_array (arr vs) = true
is_array _ = false

-- `Array.isArray(v) ? v : []`
abbrev pub array_or_empty : Value → List Value
array_or_empty (arr vs) = elems vs
array_or_empty _ = []

-- `v?.key`, for a key that arrays and texts do not have.
abbrev pub get_field : String → Fields → Value
get_field k no_fields = undefined
get_field k (field j v fs) = elim (j === k) [ true ↦ v | false ↦ get_field k fs ]

abbrev pub get : Value → String → Value
get (obj fs) k = get_field k fs
get _ k = undefined

abbrev pub is_undefined : Value → Bool
is_undefined undefined = true
is_undefined _ = false

abbrev pub is_finite : Number → Bool
is_finite nan = false
is_finite infinite = false
is_finite minus_infinite = false
is_finite _ = true

-- `n > 0`
abbrev pub is_positive : Number → Bool
is_positive infinite = true
is_positive (thousandths ℕ.zero) = false
is_positive (thousandths n) = true
is_positive _ = false

-- `Boolean(v)`
abbrev pub truthy : Value → Bool
truthy undefined = false
truthy null = false
truthy (bool b) = b
truthy (num nan) = false
truthy (num (thousandths ℕ.zero)) = false
truthy (num n) = true
truthy (str s) = not (s === "")
truthy (arr vs) = true
truthy (obj fs) = true
