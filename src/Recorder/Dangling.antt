-- ===== src/Recorder/Dangling.antt =====
-- What a new name of a write block leaves behind in workflow-recorder-component.js.
use robot_maintanance.Prelude.{String, List, [], ◌∷◌, any, filter, is_empty, ◌≡◌, refl, arith}
use robot_maintanance.Js.Engine.{Engine}
use robot_maintanance.Normalize.{clean}
use robot_maintanance.Recorder.Token.{token}
use robot_maintanance.Recorder.Draft.{
  done, Draft, Output, Block, write, read, is_read, is_write, reads_output, unread_issues,
  output_has_reads, blocking_issues,
}
use robot_maintanance.Recorder.Blocks.{set_save_as, update_write_save_as}

reads-set_save_as :
    (id name : String) (bs : List Block)
    → filter is_read (set_save_as id name bs) ≡ filter is_read bs
unfolding set_save_as
reads-set_save_as id name [] = refl
reads-set_save_as id name (read i k r ∷ bs) = rw (reads-set_save_as id name bs)
reads-set_save_as id name (write i c s o ∷ bs) = ground (arith, reads-set_save_as id name bs)

writes-set_save_as :
    (id name : String) (bs : List Block)
    → is_empty (filter is_write (set_save_as id name bs)) ≡ is_empty (filter is_write bs)
unfolding set_save_as
writes-set_save_as id name [] = refl
writes-set_save_as id name (read i k r ∷ bs) = writes-set_save_as id name bs
writes-set_save_as id name (write i c s o ∷ bs) = ground arith

any_reads-set_save_as :
    (key id name : String) (bs : List Block)
    → any (reads_output key) (set_save_as id name bs) ≡ any (reads_output key) bs
unfolding set_save_as
any_reads-set_save_as key id name [] = refl
any_reads-set_save_as key id name (read i k r ∷ bs) = rw (any_reads-set_save_as key id name bs)
any_reads-set_save_as key id name (write i c s o ∷ bs) =
    ground (arith, any_reads-set_save_as key id name bs)

unread_issues-set_save_as :
    (d : Draft) (id name : String) (os : List Output)
    → unread_issues (record d { blocks = set_save_as id name d.blocks }) os ≡ unread_issues d os
unfolding unread_issues output_has_reads
unread_issues-set_save_as d id name [] = refl
unread_issues-set_save_as d id name (o ∷ os) =
    rw (any_reads-set_save_as o.key id name d.blocks, unread_issues-set_save_as d id name os)

renamed-blocks :
    (js : Engine) (d d' : Draft) (block save_as : String)
    → update_write_save_as js d block save_as ≡ done d'
    → d' ≡ record d { blocks = set_save_as (clean block "") (token js save_as) d.blocks }
unfolding update_write_save_as
renamed-blocks js d d' block save_as e = ground (arith, e)

-- A new name of a write block leaves every read block with the input that it had, and adds no
-- blocking issue: a read of the old name stays, and the draft can still be published.
pub update_write_save_as-reads :
    (js : Engine) (d d' : Draft) (block save_as definition_id : String)
    → update_write_save_as js d block save_as ≡ done d'
    → (filter is_read d'.blocks ≡ filter is_read d.blocks)
      × (blocking_issues js d' definition_id ≡ blocking_issues js d definition_id)
unfolding blocking_issues
update_write_save_as-reads js d d' block save_as definition_id e =
    let id = clean block "" in
    let name = token js save_as in
    rw (renamed-blocks js d d' block save_as e) (
      reads-set_save_as id name d.blocks,
      rw (writes-set_save_as id name d.blocks, unread_issues-set_save_as d id name d.outputs) refl,
    )
