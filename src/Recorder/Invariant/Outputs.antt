-- ===== src/Recorder/Invariant/Outputs.antt =====
-- The output methods keep the invariant of the draft.
use robot_maintanance.Prelude.{
  String, Bool, true, false, not, ◌&&◌, [], ◌∷◌, ◌++◌, ◌≡◌, refl, sym, ◌∙◌, ◌===◌, All-append,
  All-filter, arith, eq_iff, ◌⊎◌, inl, inr,
}
use robot_maintanance.Js.Engine.{Engine}
use robot_maintanance.Recorder.Token.{token}
use robot_maintanance.Recorder.Token.Laws.{token-IsToken}
use robot_maintanance.Recorder.Draft.{
  Output, OutputForm, Draft, has_key, store_output, output_of_form, add_or_update_output,
  remove_output, reads_output,
}
use robot_maintanance.Recorder.Ensures.{Ensures, Ensures-if, ne_of_test}
use robot_maintanance.Recorder.Invariant.Lists.{
  IsKey, IsValid, IsBound, IsNumbered, All-mono, HasDistinctKeys-replace_output, All-replace_output,
  IsBound-rename_reads, HasDistinctKeys-append, IsBound-append, HasDistinctKeys-filter,
  IsBound-filter,
}
use robot_maintanance.Recorder.Invariant.Writes.{
  save_as_list-rename_reads, write_ids-rename_reads, IsDistinct-filter, IsDistinct-filter_ids,
  All-filter_ids,
}

append_output-IsValid :
    (js : Engine) (d : Draft) (p : Output)
    → IsKey p
    → has_key p.key d.outputs ≡ false
    → IsValid js d
    → IsValid js (record d { outputs = d.outputs ++ p ∷ [] })
append_output-IsValid js d p k fresh v = record {
  tokens = All-append IsKey d.outputs (p ∷ []) v.tokens (k, tt);
  keys = HasDistinctKeys-append d.outputs p fresh v.keys;
  bound = All-mono (IsBound d.outputs) _ d.blocks (IsBound-append d.outputs p) v.bound;
  names = v.names;
  ids = v.ids;
  numbered = v.numbered;
}

store_output-IsValid :
    (js : Engine) (d : Draft) (p : Output)
    → IsKey p
    → (p.key ≡ d.output_edit_key) ⊎ (has_key p.key d.outputs ≡ false)
    → IsValid js d
    → Ensures (λ r. IsValid js r.0) (store_output d p.key p)
unfolding store_output
store_output-IsValid js d p k f v =
    Ensures-if (λ r. IsValid js r.0) (d.output_edit_key === "") _ _
      (λ e. append_output-IsValid js d p k (fresh f ((eq_iff _ _).0 e)) v)
      (λ e.
        Ensures-if (λ r. IsValid js r.0) (has_key d.output_edit_key d.outputs) _ _
          (λ found. record {
            tokens = All-replace_output d.output_edit_key p IsKey d.outputs k v.tokens;
            keys = HasDistinctKeys-replace_output d.output_edit_key p d.outputs f v.keys;
            bound = IsBound-rename_reads d.output_edit_key p d.outputs d.blocks found v.bound;
            names = rw (save_as_list-rename_reads d.output_edit_key p.key d.blocks) v.names;
            ids = rw (write_ids-rename_reads d.output_edit_key p.key d.blocks) v.ids;
            numbered = rw (write_ids-rename_reads d.output_edit_key p.key d.blocks) v.numbered;
          })
          (λ missing. tt))
  where
    fresh :
        (p.key ≡ d.output_edit_key) ⊎ (has_key p.key d.outputs ≡ false)
        → d.output_edit_key ≡ ""
        → has_key p.key d.outputs ≡ false
    fresh (inl same) e = absurd (k.1 (same ∙ e))
    fresh (inr g) e = g

duplicate_test :
    (key edit : String) (b : Bool) → (b && not (edit === key)) ≡ false → (key ≡ edit) ⊎ (b ≡ false)
duplicate_test key edit true h = inl (sym ((eq_iff edit key).0 (ground arith)))
duplicate_test key edit false h = inr refl

-- `addOrUpdateOutput` keeps the invariant: whether it appends, replaces, renames or throws.
pub add_or_update_output-IsValid :
    (js : Engine) (d : Draft) (f : OutputForm)
    → IsValid js d
    → Ensures (λ r. IsValid js r.0) (add_or_update_output js d f)
unfolding add_or_update_output output_of_form
add_or_update_output-IsValid js d f v =
    let key : String = token js f.key in
    Ensures-if (λ r. IsValid js r.0) (not d.started) _ _ (λ e. tt)
      (λ e.
        Ensures-if (λ r. IsValid js r.0) (key === "") _ _ (λ e. tt)
          (λ some.
            Ensures-if (λ r. IsValid js r.0)
              (has_key key d.outputs && not (d.output_edit_key === key)) _ _ (λ e. tt)
              (λ once.
                store_output-IsValid js d (output_of_form f key)
                  (token-IsToken js f.key, λ h. ne_of_test key "" some h)
                  (duplicate_test key d.output_edit_key _ once) v)))

-- `removeOutput` keeps the invariant, since it removes the reads of the output too.
pub remove_output-IsValid :
    (js : Engine) (d : Draft) (key : String) → IsValid js d → IsValid js (remove_output js d key)
unfolding remove_output
remove_output-IsValid js d key v = record {
  tokens = All-filter IsKey (λ o. not (o.key === token js key)) d.outputs v.tokens;
  keys = HasDistinctKeys-filter (token js key) d.outputs v.keys;
  bound = IsBound-filter (token js key) d.outputs d.blocks v.bound;
  names = IsDistinct-filter (λ b. not (reads_output (token js key) b)) d.blocks v.names;
  ids = IsDistinct-filter_ids (λ b. not (reads_output (token js key) b)) d.blocks v.ids;
  numbered =
      All-filter_ids (IsNumbered js d.write_count) (λ b. not (reads_output (token js key) b))
        d.blocks v.numbered;
}
