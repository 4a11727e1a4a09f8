-- ===== src/Js/TextLaws.antt =====
-- Stripping a second time changes nothing, and what holds of all characters is kept.
use Prim.Native.Char.{Char}
use Prim.Native.String
use Prim.Native.String.{String, [], ◌∷◌}
use text.Mathlib.TextLemmas.{nil-append, cons-append}
use mathlib.Core.Path.{◌≡◌, refl}
use mathlib.Core.Bool.{Bool, false}
use mathlib.Core.Logic.{inl, inr}
use robot_maintanance.Prelude.{Bool-cases}
use robot_maintanance.Js.Text.{is_space, skip_while, put_before, strip_end, strip, trim}

-- The statement holds of every character.
abbrev pub AllChars : (Char → Type 0) → String → Type 0
AllChars P [] = Unit
AllChars P (c ∷ s) = P c × AllChars P s

pub AllChars-append :
    (P : Char → Type 0) (s t : String) → AllChars P s → AllChars P t → AllChars P (String.◌++◌ s t)
AllChars-append P [] t h k = rw nil-append k
AllChars-append P (c ∷ s) t h k = rw cons-append (h.0, AllChars-append P s t h.1 k)

module _ (p : Char → Bool) where
  -- The text is empty, or does not begin with such a character.
  abbrev pub NoLead : String → Type 0
  NoLead [] = Unit
  NoLead (c ∷ s) = p c ≡ false

  strip_end-put_before :
      (c : Char) (s : String)
      → strip_end p s ≡ s
      → strip_end p (put_before p c s) ≡ put_before p c s
  unfolding strip_end put_before
  strip_end-put_before c [] h = elim (Bool-cases (p c)) [
    | inl e ↦ rw (e, put_before)
    | inr e ↦ rw (e, put_before) (rw (e, put_before))
  ]
  strip_end-put_before c (d ∷ s) h = rw h

  pub strip_end-strip_end : (s : String) → strip_end p (strip_end p s) ≡ strip_end p s
  unfolding strip_end
  strip_end-strip_end [] = refl
  strip_end-strip_end (c ∷ s) = strip_end-put_before c (strip_end p s) (strip_end-strip_end s)

  skip_while-NoLead : (s : String) → NoLead (skip_while p s)
  unfolding skip_while
  skip_while-NoLead [] = tt
  skip_while-NoLead (c ∷ s) = elim (Bool-cases (p c)) [
    | inl e ↦ rw e (skip_while-NoLead s)
    | inr e ↦ rw e e
  ]

  put_before-NoLead : (c : Char) (s : String) → p c ≡ false → NoLead (put_before p c s)
  unfolding put_before
  put_before-NoLead c [] e = rw e e
  put_before-NoLead c (d ∷ s) e = e

  strip_end-NoLead : (s : String) → NoLead s → NoLead (strip_end p s)
  unfolding strip_end
  strip_end-NoLead [] h = tt
  strip_end-NoLead (c ∷ s) h = put_before-NoLead c (strip_end p s) h

  skip_while_of_NoLead : (s : String) → NoLead s → skip_while p s ≡ s
  unfolding skip_while
  skip_while_of_NoLead [] h = refl
  skip_while_of_NoLead (c ∷ s) h = rw h

  -- The stripped text does not begin with such a character.
  pub strip-NoLead : (s : String) → NoLead (strip p s)
  unfolding strip
  strip-NoLead s = strip_end-NoLead (skip_while p s) (skip_while-NoLead s)

  -- It does not end with one either: stripping the end again changes nothing.
  pub strip_end-strip : (s : String) → strip_end p (strip p s) ≡ strip p s
  unfolding strip
  strip_end-strip s = strip_end-strip_end (skip_while p s)

  -- A text that neither begins nor ends with such a character stays.
  pub strip_of_ends : (s : String) → NoLead s → strip_end p s ≡ s → strip p s ≡ s
  unfolding strip
  strip_of_ends s h e = rw (skip_while_of_NoLead s h) e

  pub strip-strip : (s : String) → strip p (strip p s) ≡ strip p s
  strip-strip s = strip_of_ends (strip p s) (strip-NoLead s) (strip_end-strip s)

  module _ (P : Char → Type 0) where
    skip_while-AllChars : (s : String) → AllChars P s → AllChars P (skip_while p s)
    unfolding skip_while
    skip_while-AllChars [] h = tt
    skip_while-AllChars (c ∷ s) h = elim (Bool-cases (p c)) [
      | inl e ↦ rw e (skip_while-AllChars s h.1)
      | inr e ↦ rw e h
    ]

    put_before-AllChars :
        (c : Char) (s : String) → P c → AllChars P s → AllChars P (put_before p c s)
    unfolding put_before
    put_before-AllChars c [] h k = elim (Bool-cases (p c)) [
      | inl e ↦ rw e tt
      | inr e ↦ rw e (h, tt)
    ]
    put_before-AllChars c (d ∷ s) h k = (h, k)

    strip_end-AllChars : (s : String) → AllChars P s → AllChars P (strip_end p s)
    unfolding strip_end
    strip_end-AllChars [] h = tt
    strip_end-AllChars (c ∷ s) h =
        put_before-AllChars c (strip_end p s) h.0 (strip_end-AllChars s h.1)

    pub strip-AllChars : (s : String) → AllChars P s → AllChars P (strip p s)
    unfolding strip
    strip-AllChars s h = strip_end-AllChars (skip_while p s) (skip_while-AllChars s h)

-- `s.trim().trim()` is `s.trim()`.
pub trim-trim : (s : String) → trim (trim s) ≡ trim s
unfolding trim
trim-trim s = strip-strip is_space s
