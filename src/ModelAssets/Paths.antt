-- ===== src/ModelAssets/Paths.antt =====
-- The parts of the address of a model, character by character
-- (assets/js/modules/dashboard/primitives/model-viewer/modelAssetResolver.js).
use Prim.Native.Char.{Char, code}
use Prim.Native.String.{String, [], ◌∷◌}
use mathlib.Core.Bool.{Bool, true, not, ◌||◌, ◌&&◌}
use mathlib.Core.Option.{Option, none, some}
use mathlib.Core.List.{List}
use robot_maintanance.Prelude.{ℕ, ◌+◌, leb, ◌==◌, if◌then◌else◌}
use robot_maintanance.Js.{starts_with, slice}

-- `raw.replace(/^\.\//, '')`
unfoldable pub without_dot : String → String
without_dot s = if starts_with "./" s then slice 2 s else s

abbrev is_suffix_mark : Char → Bool
is_suffix_mark c = code c == 63 || code c == 35

-- The address up to the first question mark or hash, and from there on
unfoldable pub path_of : String → String
path_of [] = []
path_of (c ∷ s) = if is_suffix_mark c then [] else c ∷ path_of s

unfoldable pub suffix_of : String → String
suffix_of [] = []
suffix_of (c ∷ s) = if is_suffix_mark c then c ∷ s else suffix_of s

-- The code of a letter from A to Z as that of its lower case
abbrev folded : ℕ → ℕ
folded n = if leb 65 n && leb n 90 then n + 32 else n

-- What follows a text, read without regard to the case of the letters
unfoldable pub after_text : String → String → Option String
after_text [] t = some t
after_text (c ∷ s) [] = none
after_text (c ∷ s) (d ∷ t) = if folded (code c) == folded (code d) then after_text s t else none

-- A line terminator, which the dot of a pattern does not match
abbrev is_line_end : Char → Bool
is_line_end c = code c == 10 || code c == 13 || code c == 8232 || code c == 8233

unfoldable pub one_line : String → Bool
one_line [] = true
one_line (c ∷ s) = not (is_line_end c) && one_line s

-- The first characters of a text
unfoldable pub front : ℕ → String → String
front ℕ.zero s = []
front (ℕ.suc n) [] = []
front (ℕ.suc n) (c ∷ s) = c ∷ front n s

abbrev pub longer_or :
    Char → Option (String × String) → String → Option String → Option (String × String)
longer_or c (some (before, rest)) matched here = some (c ∷ before, rest)
longer_or c none matched none = none
longer_or c none matched (some []) = none
longer_or c none matched (some (d ∷ rest)) = some (matched, d ∷ rest)

-- The text up to the end of the last `assets/models/` with something after it, and that rest
unfoldable pub last_models : String → Option (String × String)
unfolding after_text front
last_models [] = none
last_models (c ∷ s) =
    longer_or c (last_models s) (front 14 (c ∷ s)) (after_text "assets/models/" (c ∷ s))

-- `path.match(/^(.*assets\/models\/)(.+)$/i)`: the two groups
unfoldable pub models_match : String → Option (String × String)
unfolding last_models one_line
models_match path = if one_line path then last_models path else none

-- `text.split('/')`, as its first segment and the others
unfoldable pub split_slash : String → String × List String
split_slash [] = ([], List.[])
split_slash (c ∷ s) =
    let rest = split_slash s in
    if code c == 47 then ([], List.◌∷◌ rest.0 rest.1) else (c ∷ rest.0, rest.1)
