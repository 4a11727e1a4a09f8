-- ===== src/Recorder/Sessions.antt =====
-- Every sequence of edits of a draft in workflow-recorder-component.js.
use robot_maintanance.Prelude.{
  String, Bool, true, false, ◌≡◌, arith, sym, inl, inr, Bool-cases, Option-cases, ◌===◌,
}
use mathlib.Core.Path.{subst}
use robot_maintanance.Js.{Value}
use robot_maintanance.Normalize.{clean}
use robot_maintanance.Js.Engine.{Engine}
use robot_maintanance.Recorder.Draft.{
  Result, done, throw, Draft, Output, Block, blank, OutputForm, add_or_update_output, remove_output,
  block_id, get_output, get_read_block, set_output_edit, clear_output_edit, set_read_edit,
  clear_read_edit,
}
use robot_maintanance.Recorder.Blocks.{
  ReadForm, add_write_block, update_write_save_as, add_or_update_read_block, remove_block,
}
use robot_maintanance.Recorder.Ensures.{Ensures, ne_of_test}
use robot_maintanance.Recorder.Fresh.{WritesCounts}
use robot_maintanance.Recorder.Invariant.Lists.{IsValid}
use robot_maintanance.Recorder.Invariant.Outputs.{
  add_or_update_output-IsValid, remove_output-IsValid,
}
use robot_maintanance.Recorder.Invariant.Blocks.{
  update_write_save_as-IsValid, remove_block-IsValid, add_write_block-IsValid,
}
use robot_maintanance.Recorder.Invariant.Reads.{add_or_update_read_block-IsValid}

-- One edit that the component accepts. Editing an output or a read block starts with
-- `setOutputEdit` or `setReadEdit`, after which the form of that block updates it.
pub data Edit (js : Engine) : Draft → Draft → Type 0 where
  create : (d : Draft) → Edit js d (blank true)
  reset : (d : Draft) → Edit js d (blank false)
  output :
      (d : Draft) (f : OutputForm) (r : Draft × Output × Bool)
      → add_or_update_output js d f ≡ done r
      → Edit js d r.0
  output_removed : (d : Draft) (key : String) → Edit js d (remove_output js d key)
  write_added :
      (d : Draft) (command : String) (payload : Value) (r : Draft × Block)
      → add_write_block js d command payload ≡ done r
      → Edit js d r.0
  write_renamed :
      (d d' : Draft) (block save_as : String)
      → update_write_save_as js d block save_as ≡ done d'
      → Edit js d d'
  read_set :
      (d : Draft) (f : ReadForm) (r : Draft × Bool)
      → add_or_update_read_block js d f ≡ done r
      → Edit js d r.0
  block_removed : (d : Draft) (block : String) → Edit js d (remove_block d block)
  output_edited : (d : Draft) (key : String) → Edit js d (set_output_edit js d key)
  output_edit_ended : (d : Draft) → Edit js d (clear_output_edit d)
  read_edited : (d : Draft) (block : String) → Edit js d (set_read_edit d block)
  read_edit_ended : (d : Draft) → Edit js d (clear_read_edit d)

pub data Reachable (js : Engine) : Draft → Type 0 where
  start : Reachable js (blank false)
  edited : (d d' : Draft) → Reachable js d → Edit js d d' → Reachable js d'

module _ {κ} {A : Type 0} (P : A → Type κ) where
  Ensures-of_eq : (x y : Result A) → x ≡ y → Ensures P y → Ensures P x
  Ensures-of_eq x y e h = subst (Ensures P) (sym e) h

  holds_of_done : (x : Result A) (a : A) → x ≡ done a → Ensures P x → P a
  holds_of_done x a e h = subst (Ensures P) e h

module _ (js : Engine) (counts : WritesCounts js) where
  add_write_block-throws_stopped :
      (d : Draft) (command : String) (payload : Value)
      → d.started ≡ false
      → (m : String) × (add_write_block js d command payload ≡ throw m)
  unfolding add_write_block
  add_write_block-throws_stopped d command payload e =
      ("Create a new test draft first.", ground (arith, e))

  add_write_block-throws_blank :
      (d : Draft) (command : String) (payload : Value)
      → d.started ≡ true
      → (clean command "" === "") ≡ true
      → (m : String) × (add_write_block js d command payload ≡ throw m)
  unfolding add_write_block
  add_write_block-throws_blank d command payload s e =
      ("Command is required.", ground (arith, s, e))

  add_write_block-keeps :
      (d : Draft) (command : String) (payload : Value)
      → IsValid js d
      → Ensures (λ r. IsValid js r.0) (add_write_block js d command payload)
  add_write_block-keeps d command payload v = elim (Bool-cases d.started) [
    | inl s ↦ elim (Bool-cases (clean command "" === "")) [
      | inl e ↦ thrown (add_write_block-throws_blank d command payload s e)
      | inr e ↦
          let (n, f, eq, valid) =
            add_write_block-IsValid js counts d command payload v s
              (ne_of_test (clean command "") "" e) in
          Ensures-of_eq (λ r. IsValid js r.0) _ _ eq valid
    ]
    | inr s ↦ thrown (add_write_block-throws_stopped d command payload s)
  ]
    where
      thrown :
          (m : String) × (add_write_block js d command payload ≡ throw m)
          → Ensures (λ r. IsValid js r.0) (add_write_block js d command payload)
      thrown (m, e) = Ensures-of_eq (λ r. IsValid js r.0) _ _ e tt

  blank-IsValid : (b : Bool) → IsValid js (blank b)
  blank-IsValid b = record {
    tokens = tt;
    keys = tt;
    bound = tt;
    names = tt;
    ids = tt;
    numbered = tt;
  }

  -- Which block is being edited does not matter.
  edit_keys-IsValid :
      (d : Draft) (key block : String)
      → IsValid js d
      → IsValid js (record d { output_edit_key = key; read_edit_block_id = block })
  edit_keys-IsValid d key block v = record {
    tokens = v.tokens;
    keys = v.keys;
    bound = v.bound;
    names = v.names;
    ids = v.ids;
    numbered = v.numbered;
  }

  set_output_edit-IsValid :
      (d : Draft) (key : String) → IsValid js d → IsValid js (set_output_edit js d key)
  unfolding set_output_edit
  set_output_edit-IsValid d key v = elim (Option-cases (get_output js d key)) [
    | inl e ↦ rw (e, set_output_edit) (edit_keys-IsValid d "" d.read_edit_block_id v)
    | inr (o, e) ↦ rw (e, set_output_edit) (edit_keys-IsValid d o.key d.read_edit_block_id v)
  ]

  set_read_edit-IsValid :
      (d : Draft) (block : String) → IsValid js d → IsValid js (set_read_edit d block)
  unfolding set_read_edit
  set_read_edit-IsValid d block v = elim (Option-cases (get_read_block d block)) [
    | inl e ↦ rw (e, set_read_edit) (edit_keys-IsValid d d.output_edit_key "" v)
    | inr (b, e) ↦ rw (e, set_read_edit) (edit_keys-IsValid d d.output_edit_key (block_id b) v)
  ]

  Edit-IsValid : (d d' : Draft) → Edit js d d' → IsValid js d → IsValid js d'
  unfolding clear_output_edit clear_read_edit
  Edit-IsValid _ _ (create d) v = blank-IsValid true
  Edit-IsValid _ _ (reset d) v = blank-IsValid false
  Edit-IsValid _ _ (output d f r e) v =
      holds_of_done (λ r. IsValid js r.0) _ r e (add_or_update_output-IsValid js d f v)
  Edit-IsValid _ _ (output_removed d key) v = remove_output-IsValid js d key v
  Edit-IsValid _ _ (write_added d command payload r e) v =
      holds_of_done (λ r. IsValid js r.0) _ r e (add_write_block-keeps d command payload v)
  Edit-IsValid _ _ (write_renamed d d' block save_as e) v =
      holds_of_done (IsValid js) _ d' e (update_write_save_as-IsValid js d block save_as v)
  Edit-IsValid _ _ (read_set d f r e) v =
      holds_of_done (λ r. IsValid js r.0) _ r e (add_or_update_read_block-IsValid js d f v)
  Edit-IsValid _ _ (block_removed d block) v = remove_block-IsValid js d block v
  Edit-IsValid _ _ (output_edited d key) v = set_output_edit-IsValid d key v
  Edit-IsValid _ _ (output_edit_ended d) v = edit_keys-IsValid d "" d.read_edit_block_id v
  Edit-IsValid _ _ (read_edited d block) v = set_read_edit-IsValid d block v
  Edit-IsValid _ _ (read_edit_ended d) v = edit_keys-IsValid d d.output_edit_key "" v

  -- Where counts are written in digits and different counts differ: in every draft that edits reach
  -- from the empty one, the output keys are distinct tokens, every
  -- read block belongs to an output, and the write blocks have distinct ids and save under distinct
  -- names.
  pub Reachable-IsValid_draft : (d : Draft) → Reachable js d → IsValid js d
  Reachable-IsValid_draft _ start = blank-IsValid false
  Reachable-IsValid_draft _ (edited d d' r e) = Edit-IsValid d d' e (Reachable-IsValid_draft d r)
