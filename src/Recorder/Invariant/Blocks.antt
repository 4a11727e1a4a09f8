-- ===== src/Recorder/Invariant/Blocks.antt =====
-- The block methods keep the invariant of the draft.
use text.Mathlib.TextLemmas.{append_cancel_left, append_cancel_right}
use robot_maintanance.Prelude.{
  ℕ, ◌+◌, String, Bool, true, false, not, List, [], ◌∷◌, ◌++◌, ◌≡◌, refl, sym, ◌∙◌, ◌≢◌, ap, ◌===◌,
  All, All-append, All-filter, arith, eq_iff, ◌⊎◌, inl, inr, Bool-cases, contains, none,
  Option-cases, any,
}
use robot_maintanance.Js.{Value, template}
use robot_maintanance.Js.Engine.{Engine}
use robot_maintanance.Normalize.{clean}
use robot_maintanance.Recorder.Token.{token}
use robot_maintanance.Recorder.Token.Laws.{token-IsToken, clean_of_IsToken}
use robot_maintanance.Recorder.Draft.{
  done, throw, Output, Block, write, read, block_id, Draft, count_text, save_as_list,
}
use robot_maintanance.Recorder.Blocks.{
  add_write_block, other_writer, set_save_as, is_write_of, update_write_save_as, remove_block,
  extract_output_text,
}
use robot_maintanance.Recorder.Ensures.{Ensures, Ensures-if}
use robot_maintanance.Recorder.Fresh.{WritesCounts, next_save_as_fresh}
use robot_maintanance.Recorder.Invariant.Lists.{
  IsValid, IsBound, IsNumbered, IsDistinct, write_ids, All-mono,
}
use robot_maintanance.Recorder.Invariant.Writes.{
  save_as_list-append, write_ids-append, IsDistinct-append_one, IsDistinct-filter,
  IsDistinct-filter_ids, All-filter_ids,
}

abbrev pub write_name : Engine → ℕ → String
write_name js n = template ("write_" ∷ count_text js n ∷ [])

-- The block that `addWriteBlock` appends, and the draft after it.
abbrev pub new_write : Engine → Draft → String → String → String → Block
new_write js d c s o = write (write_name js (d.write_count + 1)) c s o

abbrev pub with_write : Engine → Draft → String → String → String → Draft
with_write js d c s o = record d {
  blocks = d.blocks ++ new_write js d c s o ∷ [];
  write_count = d.write_count + 1;
}

module _ (js : Engine) (counts : WritesCounts js) where
  write_name-inj : (m n : ℕ) → write_name js m ≡ write_name js n → m ≡ n
  unfolding template
  write_name-inj m n e =
      counts.distinct m n (append_cancel_right _ _ "" (append_cancel_left "write_" _ _ e))

  fresh_id :
      (n : ℕ) (ids : List String)
      → All (IsNumbered js n) ids
      → contains (write_name js (n + 1)) ids ≡ false
  unfolding contains
  fresh_id n [] h = refl
  fresh_id n (i ∷ ids) ((k, le, e), h) = elim (Bool-cases (i === write_name js (n + 1))) [
    | inl same ↦ absurd (omega (arith, write_name-inj k (n + 1) (sym e ∙ (eq_iff _ _).0 same)))
    | inr other ↦ rw other (fresh_id n ids h)
  ]

  IsNumbered-mono : (n : ℕ) (i : String) → IsNumbered js n i → IsNumbered js (n + 1) i
  IsNumbered-mono n i (k, le, e) = (k, omega arith, e)

  append_write-IsValid :
      (d : Draft) (c s o : String)
      → contains s (save_as_list d.blocks) ≡ false
      → IsValid js d
      → IsValid js (with_write js d c s o)
  append_write-IsValid d c s o f v =
      let n : ℕ = d.write_count in
      record {
        tokens = v.tokens;
        keys = v.keys;
        bound = All-append (IsBound d.outputs) d.blocks _ v.bound (tt, tt);
        names = rw (save_as_list-append d.blocks) (IsDistinct-append_one _ s f v.names);
        ids =
            rw (write_ids-append d.blocks)
              (IsDistinct-append_one _ _ (fresh_id n (write_ids d.blocks) v.numbered) v.ids);
        numbered = rw (write_ids-append d.blocks) (
            All-append (IsNumbered js (n + 1)) (write_ids d.blocks) _
              (All-mono (IsNumbered js n) _ _ (IsNumbered-mono n) v.numbered)
              ((n + 1, omega arith, refl), tt));
      }

  -- Where counts are written in digits and different counts differ: on a valid draft that is
  -- started and with a command that is not blank, `addWriteBlock` does not throw: it appends one
  -- write block under the next id and a name that no other write block saves under, and keeps the
  -- invariant.
  pub add_write_block-IsValid :
      (d : Draft) (command : String) (payload : Value)
      → IsValid js d
      → d.started ≡ true
      → clean command "" ≢ ""
      → (s : String) × (contains s (save_as_list d.blocks) ≡ false)
        × (add_write_block js d command payload
            ≡ done (
              with_write js d (clean command "") s (extract_output_text js payload),
              new_write js d (clean command "") s (extract_output_text js payload),
            ))
        × IsValid js (with_write js d (clean command "") s (extract_output_text js payload))
  unfolding add_write_block
  add_write_block-IsValid d command payload v st ne =
      let (s, e, f) = next_save_as_fresh js counts d.blocks in
      (
        s,
        f,
        ground (arith, st, e, eq_iff (clean command "") ""),
        append_write-IsValid d (clean command "") s (extract_output_text js payload) f v,
      )

  -- `_nextSaveAs` aside, the two throws of `addWriteBlock`.
  add_write_block-throws :
      (d : Draft) (command : String) (payload : Value) (message : String)
      → add_write_block js d command payload ≡ throw message
      → (d.started ≡ false) ⊎ (clean command "" ≡ "")
  unfolding add_write_block
  add_write_block-throws d command payload message h =
      let (s, e, f) = next_save_as_fresh js counts d.blocks in
      ground (arith, e, eq_iff (clean command "") "")

ap_clean : (s t : String) → s ≡ t → clean s "" ≡ clean t ""
ap_clean s t e = ap (λ x. clean x "") e

module _ (js : Engine) where
  ids-set_save_as :
      (id name : String) (bs : List Block) → write_ids (set_save_as id name bs) ≡ write_ids bs
  unfolding set_save_as
  ids-set_save_as id name [] = refl
  ids-set_save_as id name (read i k r ∷ bs) = ids-set_save_as id name bs
  ids-set_save_as id name (write i c s o ∷ bs) = ground (arith, ids-set_save_as id name bs)

  IsBound-set_save_as :
      (id name : String) (os : List Output) (bs : List Block)
      → All (IsBound os) bs
      → All (IsBound os) (set_save_as id name bs)
  unfolding set_save_as
  IsBound-set_save_as id name os [] h = tt
  IsBound-set_save_as id name os (read i k r ∷ bs) h = (h.0, IsBound-set_save_as id name os bs h.1)
  IsBound-set_save_as id name os (write i c s o ∷ bs) h = elim (Bool-cases (i === id)) [
    | inl e ↦ rw e (tt, h.1)
    | inr e ↦ rw e (tt, IsBound-set_save_as id name os bs h.1)
  ]

  -- No writer but `id` has the name, so no name of a list without `id` is it.
  names-other_writer :
      (id name : String) (bs : List Block)
      → clean name "" ≡ name
      → other_writer id name bs ≡ none
      → contains id (write_ids bs) ≡ false
      → contains name (save_as_list bs) ≡ false
  unfolding other_writer contains
  names-other_writer id name [] c h k = refl
  names-other_writer id name (read i key r ∷ bs) c h k = names-other_writer id name bs c h k
  names-other_writer id name (write i cmd s o ∷ bs) c h k = ground (
    arith,
    eq_iff s name,
    eq_iff (clean s "") name,
    ap_clean s name,
    names-other_writer id name bs c,
  )

  contains-set_save_as :
      (id name s : String) (bs : List Block)
      → s ≢ name
      → contains s (save_as_list bs) ≡ false
      → contains s (save_as_list (set_save_as id name bs)) ≡ false
  unfolding set_save_as contains
  contains-set_save_as id name s [] ne h = h
  contains-set_save_as id name s (read i k r ∷ bs) ne h = contains-set_save_as id name s bs ne h
  contains-set_save_as id name s (write i c t o ∷ bs) ne h =
      ground (arith, eq_iff name s, contains-set_save_as id name s bs ne)

  names-set_save_as :
      (id name : String) (bs : List Block)
      → clean name "" ≡ name
      → other_writer id name bs ≡ none
      → IsDistinct (write_ids bs)
      → IsDistinct (save_as_list bs)
      → IsDistinct (save_as_list (set_save_as id name bs))
  unfolding other_writer set_save_as
  names-set_save_as id name [] c h ids ks = tt
  names-set_save_as id name (read i k r ∷ bs) c h ids ks = names-set_save_as id name bs c h ids ks
  names-set_save_as id name (write i cmd s o ∷ bs) c h ids ks = ground (
    arith,
    eq_iff i id,
    eq_iff (clean s "") name,
    ap_clean s name,
    names-other_writer id name bs c,
    contains-set_save_as id name s bs,
    names-set_save_as id name bs c,
  )

  -- `updateWriteSaveAs` keeps the invariant: the names of the write blocks stay distinct.
  pub update_write_save_as-IsValid :
      (d : Draft) (block save_as : String)
      → IsValid js d
      → Ensures (IsValid js) (update_write_save_as js d block save_as)
  unfolding update_write_save_as
  update_write_save_as-IsValid d block save_as v =
      let id : String = clean block "" in
      let name : String = token js save_as in
      Ensures-if (IsValid js) (name === "") _ _ (λ e. tt)
        (λ some_name. elim (Option-cases (other_writer id name d.blocks)) [
          | inr (other, e) ↦ rw e tt
          | inl e ↦ rw e (
              Ensures-if (IsValid js) (any (is_write_of id) d.blocks) _ _
                (λ found. record {
                  tokens = v.tokens;
                  keys = v.keys;
                  bound = IsBound-set_save_as id name d.outputs d.blocks v.bound;
                  names =
                      names-set_save_as id name d.blocks
                        (clean_of_IsToken name (token-IsToken js save_as)) e v.ids v.names;
                  ids = rw (ids-set_save_as id name d.blocks) v.ids;
                  numbered = rw (ids-set_save_as id name d.blocks) v.numbered;
                })
                (λ missing. tt))
        ])

  -- `removeBlock` keeps the invariant.
  pub remove_block-IsValid :
      (d : Draft) (block : String) → IsValid js d → IsValid js (remove_block d block)
  unfolding remove_block
  remove_block-IsValid d block v =
      let p : Block → Bool = λ b. not (block_id b === clean block "") in
      record {
        tokens = v.tokens;
        keys = v.keys;
        bound = All-filter (IsBound d.outputs) p d.blocks v.bound;
        names = IsDistinct-filter p d.blocks v.names;
        ids = IsDistinct-filter_ids p d.blocks v.ids;
        numbered = All-filter_ids (IsNumbered js d.write_count) p d.blocks v.numbered;
      }
