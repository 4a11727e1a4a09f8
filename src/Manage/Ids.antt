-- ===== src/Manage/Ids.antt =====
-- Lists of ids: no repetition, nothing lost, and what the mappings of a recorded test keep.
use robot_maintanance.Prelude.{
  String, Bool, true, false, ◌||◌, List, [], ◌∷◌, ◌++◌, any, ◌===◌, ◌≡◌, ◌≢◌, refl, ◌∙◌, arith,
  eq_iff, contains, no_repeats, Bool-cases, All, All-append, any-append, ◌⊎◌, inl, inr,
}
use robot_maintanance.Js.{Value, str, get, array_or_empty}
use robot_maintanance.Js.Engine.{Engine, text_of}
use robot_maintanance.Normalize.{normalize_text}
use robot_maintanance.Normalize.Laws.{IsClean, normalize_text-cases, clean_of_IsClean}
use robot_maintanance.Fleet.Ids.{robot_id-empty}
use robot_maintanance.Manage.{
  add_ids, normalize_id_list, texts, type_with_id, DefinitionsSummary, mapping_request,
}

-- Some value has this id.
abbrev pub names_id : Engine → List Value → String → Bool
names_id js vs id = any (λ v. normalize_text js v "" === id) vs

contains-snoc :
    (x id : String) (l : List String) → contains x (l ++ id ∷ []) ≡ (contains x l || id === x)
unfolding contains
contains-snoc x id [] = ground arith
contains-snoc x id (y ∷ l) = ground (arith, contains-snoc x id l)

no_repeats-snoc :
    (id : String) (l : List String)
    → no_repeats l ≡ true
    → contains id l ≡ false
    → no_repeats (l ++ id ∷ []) ≡ true
unfolding no_repeats contains
no_repeats-snoc id [] h f = refl
no_repeats-snoc id (y ∷ l) h f =
    ground (arith, h, f, no_repeats-snoc id l, contains-snoc y id l, eq_iff y id, eq_iff id y)

contains-add_ids :
    (js : Engine) (x : String) (seen : List String) (vs : List Value)
    → x ≢ ""
    → contains x (add_ids js seen vs) ≡ (contains x seen || names_id js vs x)
unfolding add_ids
contains-add_ids js x seen [] ne = ground arith
contains-add_ids js x seen (v ∷ vs) ne =
    let id = normalize_text js v "" in
    elim (Bool-cases (id === "" || contains id seen)) [
      | inl skipped ↦
          rw skipped (
            ground
              (arith, skipped, ne, eq_iff id x, eq_iff id "", contains-add_ids js x seen vs ne))
      | inr new ↦ rw new (
          ground (
            arith,
            new,
            ne,
            eq_iff id x,
            contains-add_ids js x (seen ++ id ∷ []) vs ne,
            contains-snoc x id seen,
          ))
    ]

no_repeats-add_ids :
    (js : Engine) (seen : List String) (vs : List Value)
    → no_repeats seen ≡ true
    → no_repeats (add_ids js seen vs) ≡ true
unfolding add_ids
no_repeats-add_ids js seen [] h = h
no_repeats-add_ids js seen (v ∷ vs) h =
    let id = normalize_text js v "" in
    elim (Bool-cases (id === "" || contains id seen)) [
      | inl skipped ↦ rw skipped (no_repeats-add_ids js seen vs h)
      | inr new ↦ rw new (
          no_repeats-add_ids js (seen ++ id ∷ []) vs
            (no_repeats-snoc id seen h (ground (arith, new))))
    ]

-- `normalizeIdList` keeps exactly the ids that the values name, each once.
pub normalize_id_list-ids :
    (js : Engine) (x : String) (vs : List Value)
    → x ≢ ""
    → (contains x (normalize_id_list js vs) ≡ names_id js vs x)
      × (no_repeats (normalize_id_list js vs) ≡ true)
unfolding contains no_repeats
normalize_id_list-ids js x vs ne =
    (contains-add_ids js x [] vs ne, no_repeats-add_ids js [] vs refl)

-- An id that is read back as itself
abbrev IsStable : Engine → String → Type 0
IsStable js id = normalize_text js (str id) "" ≡ id

normalize_text-IsStable : (js : Engine) (v : Value) → IsStable js (normalize_text js v "")
unfolding normalize_text text_of
normalize_text-IsStable js v = go (normalize_text-cases js v "")
  where
    go :
        IsClean (normalize_text js v "") ⊎ (normalize_text js v "" ≡ "")
        → IsStable js (normalize_text js v "")
    go (inl good) = clean_of_IsClean (normalize_text js v "") "" good
    go (inr blank) = rw blank robot_id-empty

add_ids-IsStable :
    (js : Engine) (seen : List String) (vs : List Value)
    → All (IsStable js) seen
    → All (IsStable js) (add_ids js seen vs)
unfolding add_ids
add_ids-IsStable js seen [] h = h
add_ids-IsStable js seen (v ∷ vs) h =
    let id = normalize_text js v "" in
    elim (Bool-cases (id === "" || contains id seen)) [
      | inl skipped ↦ rw skipped (add_ids-IsStable js seen vs h)
      | inr new ↦ rw new (
          add_ids-IsStable js (seen ++ id ∷ []) vs
            (All-append (IsStable js) seen (id ∷ []) h (normalize_text-IsStable js v, tt)))
    ]

names_id-texts :
    (js : Engine) (x : String) (l : List String)
    → All (IsStable js) l
    → names_id js (texts l) x ≡ contains x l
unfolding contains
names_id-texts js x [] h = refl
names_id-texts js x (id ∷ l) h = rw (h.0, names_id-texts js x l h.1) refl

names_id-append :
    (js : Engine) (x : String) (vs ws : List Value)
    → names_id js (vs ++ ws) x ≡ (names_id js vs x || names_id js ws x)
names_id-append js x vs ws = any-append (λ v. normalize_text js v "" === x) vs ws

-- The test references that are sent for a robot type are its earlier ones and those of the
-- recorded test, each once: an id that is not empty is among them exactly where it was among the
-- type's or is one of the checks.
pub mapping_request-tests :
    (js : Engine) (check_ids : List String) (fix_id type_id x : String)
    (summary : DefinitionsSummary)
    → x ≢ ""
    → let sent = (mapping_request js check_ids fix_id summary type_id).test_refs in
      (no_repeats sent ≡ true)
      × (contains x sent ≡ (
          names_id js
            (array_or_empty (get (type_with_id js type_id summary.robot_types) "testRefs"))
            x
          || names_id js (texts check_ids) x))
unfolding mapping_request
mapping_request-tests js check_ids fix_id type_id x summary ne =
    let old = array_or_empty (get (type_with_id js type_id summary.robot_types) "testRefs") in
    let once = add_ids js [] (old ++ texts check_ids) in
    (
      (normalize_id_list-ids js x (texts once) ne).1,
      (normalize_id_list-ids js x (texts once) ne).0
          ∙ names_id-texts js x once (add_ids-IsStable js [] (old ++ texts check_ids) tt)
          ∙ (normalize_id_list-ids js x (old ++ texts check_ids) ne).0
          ∙ names_id-append js x old (texts check_ids),
    )
