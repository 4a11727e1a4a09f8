-- ===== src/Recorder/Fresh.antt =====
-- `_nextSaveAs` ends, with a name that no write block uses.
use Prim.Native.Char.{Char, code}
use text.Mathlib.TextLemmas.{append_cancel_left, append_cancel_right, append-eq-nil_iff}
use robot_maintanance.Prelude.{
  ℕ, zero, suc, ◌+◌, ◌≤◌, ◌<◌, String, true, false, ◌&&◌, leb, List, [], ◌∷◌, map, ◌≡◌, refl, ap,
  ◌≢◌, length, some, arith, eq_iff, inl, inr, Bool-cases, contains, delete, contains-delete,
}
use robot_maintanance.Js.{template}
use robot_maintanance.Js.TextLaws.{AllChars, AllChars-append}
use robot_maintanance.Js.Engine.{Engine}
use robot_maintanance.Normalize.{clean}
use robot_maintanance.Recorder.Token.{is_token_char}
use robot_maintanance.Recorder.Token.Laws.{trim_of_chars}
use robot_maintanance.Recorder.Draft.{Block, count_text, save_as_list}
use robot_maintanance.Recorder.Blocks.{
  free_from, saved_name, used_names, next_save_as, name_of_cursor,
}

abbrev pub IsDigit : Char → Type 0
IsDigit c = (leb b'0' (code c) && leb (code c) b'9') ≡ true

-- What the template literals rely on: a count is written in digits, and different counts differ.
pub record WritesCounts (js : Engine) : Type 0 where
  pub digits : (n : ℕ) → AllChars IsDigit (count_text js n)
  pub distinct : (m n : ℕ) → count_text js m ≡ count_text js n → m ≡ n

digit_char : (c : Char) → IsDigit c → is_token_char c ≡ true
unfolding is_token_char
digit_char c h = ground arith

digits-token : (s : String) → AllChars IsDigit s → AllChars (λ c. is_token_char c ≡ true) s
digits-token String.[] h = tt
digits-token (String.◌∷◌ c s) h = (digit_char c h.0, digits-token s h.1)

length-delete : (k : String) (s : List String) → length (delete k s) ≤ length s
unfolding delete
length-delete k [] = omega arith
length-delete k (j ∷ s) = ground (arith, length-delete k s)

length-delete-lt :
    (k : String) (s : List String) → contains k s ≡ true → length (delete k s) < length s
unfolding delete contains
length-delete-lt k [] h = cc
length-delete-lt k (j ∷ s) h = ground (arith, length-delete k s, length-delete-lt k s)

length-map : (f : String → String) (s : List String) → length (map f s) ≡ length s
length-map f [] = refl
length-map f (j ∷ s) = ap suc (length-map f s)

contains_of_map :
    (f : String → String) (k : String) (s : List String)
    → f k ≡ k
    → contains k (map f s) ≡ false
    → contains k s ≡ false
unfolding contains
contains_of_map f k [] e h = h
contains_of_map f k (j ∷ s) e h =
    ground (arith, eq_iff j k, eq_iff (f j) k, contains_of_map f k s e, same j k)
  where
    same : (j k : String) → j ≡ k → f j ≡ f k
    same j k q = ap f q

module _ (js : Engine) (counts : WritesCounts js) where
  pub saved_name-ne : (m n : ℕ) → m ≢ n → saved_name js m ≢ saved_name js n
  unfolding template
  saved_name-ne m n ne e =
      ne (counts.distinct m n (append_cancel_right _ _ "" (append_cancel_left "out_" _ _ e)))

  -- The names that the loop can still meet are in `left`, which shrinks with the fuel.
  free_from_total :
      (fuel cursor : ℕ) (used left : List String)
      → length left < fuel
      → ((n : ℕ)
          → cursor ≤ n
          → contains (saved_name js n) used ≡ true
          → contains (saved_name js n) left ≡ true)
      → (m : ℕ) × (free_from js fuel cursor used ≡ some m)
        × (contains (saved_name js m) used ≡ false)
  unfolding free_from
  free_from_total zero cursor used left h k = absurd (omega arith)
  free_from_total (suc fuel) cursor used left h k =
      elim (Bool-cases (contains (saved_name js cursor) used)) [
        | inr free ↦ (cursor, rw free, free)
        | inl taken ↦
            let here = k cursor (omega arith) taken in
            let (m, e, f) =
              free_from_total fuel (cursor + 1) used (delete (saved_name js cursor) left)
                (omega (arith, length-delete-lt (saved_name js cursor) left here))
                (λ n le met. rw (contains-delete (saved_name js cursor) (saved_name js n) left) (
                  ground (
                    arith,
                    eq_iff (saved_name js cursor) (saved_name js n),
                    saved_name-ne cursor n (omega arith),
                    k n (omega arith) met,
                  ))) in
            (m, rw taken e, f)
      ]

  saved_name-AllChars : (n : ℕ) → AllChars (λ c. is_token_char c ≡ true) (saved_name js n)
  unfolding template is_token_char
  saved_name-AllChars n =
      AllChars-append (λ c. is_token_char c ≡ true) "out_" _ (refl, (refl, (refl, (refl, tt))))
        (AllChars-append (λ c. is_token_char c ≡ true) _ ""
          (digits-token (count_text js n) (counts.digits n)) tt)

  saved_name-ne-nil : (n : ℕ) → saved_name js n ≢ ""
  unfolding template
  saved_name-ne-nil n e = nonempty (append-eq-nil_iff.0 e).0
    where
      nonempty : ◌≡◌ {A = String} "out_" "" → ⊥
      nonempty q = cc

  clean-saved_name : (n : ℕ) → clean (saved_name js n) "" ≡ saved_name js n
  unfolding clean
  clean-saved_name n =
      let s : String = saved_name js n in
      ground (arith, eq_iff s "", trim_of_chars s (saved_name-AllChars n), saved_name-ne-nil n)

  -- Where counts are written in digits and different counts differ, `_nextSaveAs` always finds a
  -- name, and no write block saves under it.
  pub next_save_as_fresh :
      (bs : List Block)
      → (s : String) × (next_save_as js bs ≡ some s) × (contains s (save_as_list bs) ≡ false)
  unfolding next_save_as
  next_save_as_fresh bs =
      let used : List String = used_names bs in
      let n : ℕ = length (save_as_list bs) in
      let (m, e, f) =
        free_from_total (suc n) (n + 1) used used
          (omega (arith, length-map (λ s. clean s "") (save_as_list bs))) (λ k le h. h) in
      (
        saved_name js m,
        ap (name_of_cursor js) e,
        contains_of_map (λ s. clean s "") (saved_name js m) (save_as_list bs) (clean-saved_name m)
            f,
      )
