-- ===== src/Js/Text.antt =====
-- `String.prototype.trim`, and stripping other characters from both ends of a text.
use Prim.Native.Char.{Char, code}
use Prim.Native.String
use Prim.Native.String.{String, [], ◌∷◌}
use mathlib.Core.Bool.{Bool, true, false, ◌||◌, ◌&&◌}
use robot_maintanance.Prelude.{ℕ, leb, ◌==◌, if◌then◌else◌}
use mathlib.Core.List.{List}

module _ (p : Char → Bool) where
  unfoldable pub skip_while : String → String
  skip_while [] = []
  skip_while (c ∷ s) = if p c then skip_while s else c ∷ s

  -- A character in front of a text whose end is stripped.
  unfoldable pub put_before : Char → String → String
  put_before c [] = if p c then [] else c ∷ []
  put_before c (d ∷ s) = c ∷ d ∷ s

  unfoldable pub strip_end : String → String
  unfolding put_before
  strip_end [] = []
  strip_end (c ∷ s) = put_before c (strip_end s)

  unfoldable pub strip : String → String
  unfolding skip_while strip_end
  strip s = strip_end (skip_while s)

-- The code points that `trim` removes: white space and line terminators.
unfoldable pub is_space : Char → Bool
is_space d =
    let c = code d in
    (leb 9 c && leb c 13)
    || c == 32
    || c == 160
    || c == 5760
    || (leb 8192 c && leb c 8202)
    || c == 8232
    || c == 8233
    || c == 8239
    || c == 8287
    || c == 12288
    || c == 65279

unfoldable pub trim : String → String
unfolding is_space strip
trim s = strip is_space s

-- A template literal: the parts one after the other.
unfoldable pub template : List String → String
template List.[] = ""
template (List.◌∷◌ s parts) = String.◌++◌ s (template parts)

-- `t.startsWith(s)`
unfoldable pub starts_with : String → String → Bool
starts_with [] t = true
starts_with (c ∷ s) [] = false
starts_with (c ∷ s) (d ∷ t) = code c == code d && starts_with s t

-- `t.includes(s)`
unfoldable pub includes : String → String → Bool
unfolding starts_with
includes s [] = starts_with s []
includes s (c ∷ t) = starts_with s (c ∷ t) || includes s t

-- `t.slice(n)`
unfoldable pub slice : ℕ → String → String
slice ℕ.zero s = s
slice (ℕ.suc n) [] = []
slice (ℕ.suc n) (c ∷ s) = slice n s

-- `t.replace(/^#/, '')`
unfoldable pub without_hash : String → String
without_hash [] = []
without_hash (c ∷ s) = if code c == 35 then s else c ∷ s

-- What stands before the first slash, and what stands after it.
unfoldable pub until_slash : String → String
until_slash [] = []
until_slash (c ∷ s) = if code c == 47 then [] else c ∷ until_slash s

unfoldable pub after_slash : String → String
after_slash [] = []
after_slash (c ∷ s) = if code c == 47 then s else after_slash s

-- `t.split('/')[1]`, the empty text where there is no slash
unfoldable pub second_part : String → String
unfolding until_slash after_slash
second_part s = until_slash (after_slash s)
