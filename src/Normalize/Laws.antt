-- ===== src/Normalize/Laws.antt =====
-- The texts that `normalizeText` gives.
use robot_maintanance.Prelude.{String, ◌≡◌, refl, ◌≢◌, ◌⊎◌, inr, arith, eq_iff}
use robot_maintanance.Js.{Value, undefined, null, trim}
use robot_maintanance.Js.TextLaws.{trim-trim}
use robot_maintanance.Js.Engine.{Engine, text_of}
use robot_maintanance.Normalize.{clean, normalize_text}

-- A text that trimming leaves alone and that is not empty.
abbrev pub IsClean : String → Type 0
IsClean s = (trim s ≡ s) × (s ≢ "")

pub clean-cases : (s fallback : String) → IsClean (clean s fallback) ⊎ (clean s fallback ≡ fallback)
unfolding clean
clean-cases s fallback = ground (arith, eq_iff (trim s) "", trim-trim s)

pub clean_of_IsClean : (s fallback : String) → IsClean s → clean s fallback ≡ s
unfolding clean
clean_of_IsClean s fallback h = ground (arith, eq_iff (trim s) "", eq_iff s "")

-- The result is the fallback, or a trimmed text that is not empty.
pub normalize_text-cases :
    (js : Engine) (v : Value) (fallback : String)
    → IsClean (normalize_text js v fallback) ⊎ (normalize_text js v fallback ≡ fallback)
unfolding normalize_text
normalize_text-cases js undefined fallback = inr refl
normalize_text-cases js null fallback = inr refl
normalize_text-cases js v fallback = clean-cases (text_of js v) fallback
