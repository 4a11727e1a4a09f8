-- ===== src/Recorder/Token/Laws.antt =====
-- What a token looks like.
use Prim.Native.Char.{Char}
use Prim.Native.String.{String, [], ◌∷◌}
use robot_maintanance.Prelude.{
  Bool, true, false, ◌≡◌, refl, inl, inr, Bool-cases, arith, if◌then◌else◌, eq_iff,
}
use robot_maintanance.Js.{strip_end, is_space, trim}
use robot_maintanance.Js.TextLaws.{
  AllChars, NoLead, strip-NoLead, strip_end-strip, strip-AllChars, strip_of_ends,
}
use robot_maintanance.Js.Engine.{Engine}
use robot_maintanance.Normalize.{clean}
use robot_maintanance.Recorder.Token.{is_token_char, is_underscore, replace_runs, token}

-- Only characters of `[a-z0-9_.-]`, and no underscore at either end.
pub record IsToken (s : String) : Type 0 where
  pub chars : AllChars (λ c. is_token_char c ≡ true) s
  pub start : NoLead is_underscore s
  pub finish : strip_end is_underscore s ≡ s

abbrev IsTokenChar : Char → Type 0
IsTokenChar c = is_token_char c ≡ true

underscore_if :
    (b : Bool) (s : String)
    → AllChars IsTokenChar s
    → AllChars IsTokenChar (if b then s else "_" ∷ s)
unfolding is_token_char
underscore_if true s h = h
underscore_if false s h = (refl, h)

replace_runs-AllChars : (in_run : Bool) (s : String) → AllChars IsTokenChar (replace_runs in_run s)
unfolding replace_runs
replace_runs-AllChars in_run [] = tt
replace_runs-AllChars in_run (c ∷ s) = elim (Bool-cases (is_token_char c)) [
  | inl e ↦ rw e (e, replace_runs-AllChars false s)
  | inr e ↦ rw e (underscore_if in_run (replace_runs true s) (replace_runs-AllChars true s))
]

-- Whatever is typed, the token holds only characters of `[a-z0-9_.-]` and neither begins nor ends
-- with an underscore.
pub token-IsToken : (js : Engine) (s : String) → IsToken (token js s)
unfolding token
token-IsToken js s =
    let lowered : String = js.lower (clean s "") in
    let t : String = replace_runs false lowered in
    record {
      chars = strip-AllChars is_underscore IsTokenChar t (replace_runs-AllChars false lowered);
      start = strip-NoLead is_underscore t;
      finish = strip_end-strip is_underscore t;
    }

replace_runs_of_chars : (s : String) → AllChars IsTokenChar s → replace_runs false s ≡ s
unfolding replace_runs
replace_runs_of_chars [] h = refl
replace_runs_of_chars (c ∷ s) h = rw h.0 (rw (replace_runs_of_chars s h.1))

-- No character of a token is white space.
is_token_char-not-is_space : (c : Char) → is_token_char c ≡ true → is_space c ≡ false
unfolding is_token_char is_space
is_token_char-not-is_space c h = ground arith

NoLead-of_chars : (s : String) → AllChars IsTokenChar s → NoLead is_space s
NoLead-of_chars [] h = tt
NoLead-of_chars (c ∷ s) h = is_token_char-not-is_space c h.0

strip_end_of_chars : (s : String) → AllChars IsTokenChar s → strip_end is_space s ≡ s
unfolding strip_end
strip_end_of_chars [] h = refl
strip_end_of_chars (c ∷ []) h = rw (is_token_char-not-is_space c h.0)
strip_end_of_chars (c ∷ d ∷ s) h = rw (strip_end_of_chars (d ∷ s) h.1)

pub trim_of_chars : (s : String) → AllChars IsTokenChar s → trim s ≡ s
unfolding trim
trim_of_chars s h = strip_of_ends is_space s (NoLead-of_chars s h) (strip_end_of_chars s h)

pub trim_of_IsToken : (s : String) → IsToken s → trim s ≡ s
unfolding trim
trim_of_IsToken s h =
    strip_of_ends is_space s (NoLead-of_chars s h.chars) (strip_end_of_chars s h.chars)

pub clean_of_IsToken : (s : String) → IsToken s → clean s "" ≡ s
unfolding clean
clean_of_IsToken s h = ground (arith, trim_of_IsToken s h, eq_iff s "")

-- A token is its own token, where `toLowerCase` leaves such texts alone.
pub token_of_IsToken : (js : Engine) (s : String) → js.lower s ≡ s → IsToken s → token js s ≡ s
unfolding token
token_of_IsToken js s fixed h =
    rw (clean_of_IsToken s h, fixed, replace_runs_of_chars s h.chars)
      (strip_of_ends is_underscore s h.start h.finish)
