-- ===== src/Recorder/Invariant/Reads.antt =====
-- The read method keeps the invariant, and reads only from names that are saved.
use robot_maintanance.Prelude.{
  String, Bool, true, false, not, List, [], ◌∷◌, ◌≡◌, refl, ◌===◌, All, All-append, arith, inl, inr,
  Bool-cases, if◌then◌else◌, contains, any, is_empty, append-nil,
}
use robot_maintanance.Js.Engine.{Engine}
use robot_maintanance.Normalize.{clean}
use robot_maintanance.Recorder.Token.{token, parse_comma_separated, parse_line_separated}
use robot_maintanance.Recorder.Draft.{
  Result, done, throw, Output, ReadSpec, Block, write, read, Draft, has_key, save_as_list,
  input_ref,
}
use robot_maintanance.Recorder.Blocks.{
  ReadForm, set_read, is_read_of, store_read, spec_of_kind, build_read_spec,
  add_or_update_read_block,
}
use robot_maintanance.Recorder.Ensures.{Ensures, Ensures-if}
use robot_maintanance.Recorder.Invariant.Lists.{IsValid, IsBound, write_ids}
use robot_maintanance.Recorder.Invariant.Writes.{save_as_list-append, write_ids-append}

module _ (id key : String) (spec : ReadSpec) where
  save_as_list-set_read :
      (bs : List Block) → save_as_list (set_read id key spec bs) ≡ save_as_list bs
  unfolding set_read
  save_as_list-set_read [] = refl
  save_as_list-set_read (write i c s o ∷ bs) = rw (save_as_list-set_read bs)
  save_as_list-set_read (read i k r ∷ bs) = ground (arith, save_as_list-set_read bs)

  write_ids-set_read : (bs : List Block) → write_ids (set_read id key spec bs) ≡ write_ids bs
  unfolding set_read
  write_ids-set_read [] = refl
  write_ids-set_read (write i c s o ∷ bs) = rw (write_ids-set_read bs)
  write_ids-set_read (read i k r ∷ bs) = ground (arith, write_ids-set_read bs)

  IsBound-set_read :
      (os : List Output) (bs : List Block)
      → has_key key os ≡ true
      → All (IsBound os) bs
      → All (IsBound os) (set_read id key spec bs)
  unfolding set_read
  IsBound-set_read os [] k h = tt
  IsBound-set_read os (write i c s o ∷ bs) k h = (tt, IsBound-set_read os bs k h.1)
  IsBound-set_read os (read i j r ∷ bs) k h = elim (Bool-cases (i === id)) [
    | inl e ↦ rw e (k, h.1)
    | inr e ↦ rw e (h.0, IsBound-set_read os bs k h.1)
  ]

module _ (js : Engine) where
  store_read-IsValid :
      (d : Draft) (key : String) (spec : ReadSpec)
      → has_key key d.outputs ≡ true
      → IsValid js d
      → Ensures (λ r. IsValid js r.0) (store_read js d key spec)
  unfolding store_read
  store_read-IsValid d key spec k v =
      Ensures-if (λ r. IsValid js r.0) (d.read_edit_block_id === "") _ _
        (λ e. record {
          tokens = v.tokens;
          keys = v.keys;
          bound = All-append (IsBound d.outputs) d.blocks _ v.bound (k, tt);
          names = rw (save_as_list-append d.blocks, append-nil) v.names;
          ids = rw (write_ids-append d.blocks, append-nil) v.ids;
          numbered = rw (write_ids-append d.blocks, append-nil) v.numbered;
        })
        (λ e.
          Ensures-if (λ r. IsValid js r.0) (any (is_read_of d.read_edit_block_id) d.blocks) _ _
            (λ found. record {
              tokens = v.tokens;
              keys = v.keys;
              bound = IsBound-set_read d.read_edit_block_id key spec d.outputs d.blocks k v.bound;
              names = rw (save_as_list-set_read d.read_edit_block_id key spec d.blocks) v.names;
              ids = rw (write_ids-set_read d.read_edit_block_id key spec d.blocks) v.ids;
              numbered = rw (write_ids-set_read d.read_edit_block_id key spec d.blocks) v.numbered;
            })
            (λ missing. tt))

  -- `addOrUpdateReadBlock` keeps the invariant: the block's output exists when it is stored.
  pub add_or_update_read_block-IsValid :
      (d : Draft) (f : ReadForm)
      → IsValid js d
      → Ensures (λ r. IsValid js r.0) (add_or_update_read_block js d f)
  unfolding add_or_update_read_block
  add_or_update_read_block-IsValid d f v =
      let key : String = token js f.output_key in
      Ensures-if (λ r. IsValid js r.0) (not d.started) _ _ (λ e. tt)
        (λ e.
          Ensures-if (λ r. IsValid js r.0) (key === "") _ _ (λ e. tt)
            (λ e.
              Ensures-if (λ r. IsValid js r.0) (not (has_key key d.outputs)) _ _ (λ e. tt)
                (λ known. store (build_read_spec js d f) (ground arith))))
    where
      store :
          (spec : Result ReadSpec)
          → has_key (token js f.output_key) d.outputs ≡ true
          → Ensures {A = Draft × Bool}
              (λ r. IsValid js r.0)
              (elim spec [
                | throw message ↦ throw message
                | done s ↦ store_read js d (token js f.output_key) s
              ])
      store (throw message) known = tt
      store (done s) known = store_read-IsValid d (token js f.output_key) s known v

  -- One kind: its rule reads the reference, if the value is there.
  input_ref_of_kind :
      (r : String) (b : Bool) (message : String) (s : ReadSpec)
      → input_ref s ≡ r
      → Ensures (λ s. input_ref s ≡ r) (if b then throw message else done s)
  input_ref_of_kind r true message s e = tt
  input_ref_of_kind r false message s e = e

  input_ref-spec_of_kind :
      (f : ReadForm) (r kind : String) → Ensures (λ s. input_ref s ≡ r) (spec_of_kind f r kind)
  unfolding spec_of_kind
  input_ref-spec_of_kind f r kind =
      let P : ReadSpec → Type 0 = λ s. input_ref s ≡ r in
      Ensures-if P (kind === "contains_string") _ _
        (λ e. input_ref_of_kind r (clean f.needle "" === "") _ _ refl)
        (λ e.
          Ensures-if P (kind === "contains_any_string") _ _
            (λ e. input_ref_of_kind r (is_empty (parse_comma_separated f.needles)) _ _ refl)
            (λ e.
              Ensures-if P (kind === "contains_lines_unordered") _ _
                (λ e. input_ref_of_kind r (is_empty (parse_line_separated f.lines)) _ _ refl)
                (λ e. tt)))

  -- A rule that `_buildReadSpec` gives reads what a write block of the draft saves.
  pub build_read_spec-saved :
      (d : Draft) (f : ReadForm)
      → Ensures
          (λ s. contains (input_ref s) (save_as_list d.blocks) ≡ true)
          (build_read_spec js d f)
  unfolding build_read_spec
  build_read_spec-saved d f =
      let P : ReadSpec → Type 0 = λ s. contains (input_ref s) (save_as_list d.blocks) ≡ true in
      let r : String = clean f.input_ref "" in
      Ensures-if P (r === "") _ _ (λ e. tt)
        (λ e.
          Ensures-if P (not (contains r (save_as_list d.blocks))) _ _ (λ e. tt)
            (λ saved.
              along r (spec_of_kind f r (js.lower (clean f.kind "")))
                (input_ref-spec_of_kind f r (js.lower (clean f.kind ""))) (ground arith)))
    where
      along :
          (r : String) (spec : Result ReadSpec)
          → Ensures (λ s. input_ref s ≡ r) spec
          → contains r (save_as_list d.blocks) ≡ true
          → Ensures (λ s. contains (input_ref s) (save_as_list d.blocks) ≡ true) spec
      along r (throw message) e h = tt
      along r (done s) e h = rw e h
