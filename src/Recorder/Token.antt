-- ===== src/Recorder/Token.antt =====
-- `normalizeToken` and the splitting of form values.
pub mod Laws
use Prim.Native.Nat.{ℕ}
use Prim.Native.Char.{Char, code}
use Prim.Native.String
use Prim.Native.String.{String, [], ◌∷◌}
use mathlib.Core.List
use mathlib.Core.List.{List}
use robot_maintanance.Prelude.{
  Bool, true, false, not, ◌&&◌, ◌||◌, leb, ◌==◌, ◌===◌, if◌then◌else◌, filter, map,
}
use robot_maintanance.Js.{strip}
use robot_maintanance.Js.Engine.{Engine}
use robot_maintanance.Normalize.{clean}

-- The class `[a-z0-9_.-]`.
unfoldable pub is_token_char : Char → Bool
is_token_char d =
    let c = code d in
    (leb b'a' c && leb c b'z') || (leb b'0' c && leb c b'9') || c == b'_' || c == b'.' || c == b'-'

unfoldable pub is_underscore : Char → Bool
is_underscore c = code c == b'_'

-- `replace(/[^a-z0-9_.-]+/g, '_')`: the first argument says that a run of others has begun.
unfoldable pub replace_runs : Bool → String → String
unfolding is_token_char
replace_runs in_run [] = []
replace_runs in_run (c ∷ s) =
    let rest = replace_runs (not (is_token_char c)) s in
    if is_token_char c then c ∷ rest else if in_run then rest else "_" ∷ rest

-- `normalizeToken(rawValue, '')`, and with a fallback
unfoldable pub token : Engine → String → String
unfolding replace_runs is_underscore strip
token js s = strip is_underscore (replace_runs false (js.lower (clean s "")))

unfoldable pub normalize_token : Engine → String → String → String
unfolding token
normalize_token js s fallback = let t = token js s in if t === "" then fallback else t

-- `split(separator)`: the part read so far, in front.
unfoldable pub split_from : ℕ → String → String → List String
split_from sep part [] = List.◌∷◌ part List.[]
split_from sep part (c ∷ s) =
    let closed = List.◌∷◌ part (split_from sep "" s) in
    let longer = split_from sep (String.◌++◌ part (c ∷ [])) s in
    if code c == sep then closed else longer

-- `parseCommaSeparated`
unfoldable pub parse_comma_separated : String → List String
unfolding split_from
parse_comma_separated s =
    filter (λ t. not (t === "")) (map (λ t. clean t "") (split_from b',' "" (clean s "")))

-- `replace(/\r/g, '')`
unfoldable pub drop_returns : String → String
drop_returns [] = []
drop_returns (c ∷ s) = if code c == 13 then drop_returns s else c ∷ drop_returns s

-- `parseLineSeparated`
unfoldable pub parse_line_separated : String → List String
unfolding split_from drop_returns
parse_line_separated s =
    filter (λ t. not (t === ""))
      (map (λ t. clean t "") (split_from 10 "" (drop_returns (clean s ""))))
