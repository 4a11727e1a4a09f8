-- ===== src/Normalize.antt =====
-- assets/js/lib/normalize.js
pub mod Laws
use robot_maintanance.Prelude.{String, Bool, true, false, ◌===◌, if◌then◌else◌}
use robot_maintanance.Js.{Value, undefined, null, str, truthy, trim}
use robot_maintanance.Js.Engine.{Engine, text_of}

-- The three statuses of a test result.
pub data Status : Type 0 where
  ok warning error : Status

abbrev pub status_of_text : String → Status
status_of_text s = if s === "ok" then ok else if s === "error" then error else warning

-- `normalizeStatus`: no other value is identical to one of the three texts.
unfoldable pub normalize_status : Value → Status
normalize_status (str s) = status_of_text s
normalize_status _ = warning

-- `normalizeText` of a text.
unfoldable pub clean : String → String → String
clean s fallback = let candidate = trim s in if candidate === "" then fallback else candidate

-- `normalizeText`
unfoldable pub normalize_text : Engine → Value → String → String
unfolding clean
normalize_text js undefined fallback = fallback
normalize_text js null fallback = fallback
normalize_text js v fallback = clean (text_of js v) fallback

-- `normalizeTypeId`
unfoldable pub normalize_type_id : Engine → Value → String
normalize_type_id js v = js.lower (trim (if truthy v then text_of js v else ""))
