-- ===== src/Recorder/Blocks.antt =====
-- The methods of `WorkflowRecorderComponent` that add, change and remove blocks.
use robot_maintanance.Prelude.{
  ℕ, zero, suc, ◌+◌, String, Bool, true, false, not, ◌&&◌, Option, none, some, List, [], ◌∷◌, ◌++◌,
  map, length, is_empty, any, filter, ◌===◌, if◌then◌else◌, contains,
}
use robot_maintanance.Js.{
  Value, undefined, null, str, arr, Items, no_items, item, get, truthy, template,
}
use robot_maintanance.Js.Engine.{Engine, text_of}
use robot_maintanance.Normalize.{clean}
use robot_maintanance.Recorder.Token.{token, parse_comma_separated, parse_line_separated}
use robot_maintanance.Recorder.Draft.{
  Result, done, throw, ReadSpec, contains_string, contains_any_string, contains_lines_unordered,
  Block, write, read, Draft, block_id, count_text, save_as_list, has_key,
}

-- `payload.lines.map(String).join('\n')`
unfoldable pub join_lines : Engine → Items → String
join_lines js no_items = ""
join_lines js (item v no_items) = text_of js v
join_lines js (item v (item w vs)) = template (text_of js v ∷ "\n" ∷ join_lines js (item w vs) ∷ [])

-- `[a, b].filter(Boolean).join('\n')`
abbrev join_two : String → String → String
join_two a b = if a === "" then b else if b === "" then a else template (a ∷ "\n" ∷ b ∷ [])

-- `String(v || '')`
abbrev text_or_empty : Engine → Value → String
text_or_empty js v = if truthy v then text_of js v else ""

-- The branches of `extractOutputText` after `payload.output`.
unfoldable pub stream_text : Engine → Value → Value → Value → Value → Value → String
unfolding join_lines
stream_text js (str a) err lines result payload = join_two a (text_or_empty js err)
stream_text js out (str b) lines result payload = join_two (text_or_empty js out) b
stream_text js out err (arr vs) result payload = join_lines js vs
stream_text js out err lines undefined payload = js.stringify payload
stream_text js out err lines result payload = text_of js result

abbrev output_or : Value → String → String
output_or (str s) rest = s
output_or _ rest = rest

-- `extractOutputText`
unfoldable pub extract_output_text : Engine → Value → String
unfolding stream_text
extract_output_text js undefined = ""
extract_output_text js null = ""
extract_output_text js (str s) = s
extract_output_text js v =
    output_or (get v "output")
      (stream_text js (get v "stdout") (get v "stderr") (get v "lines") (get v "result") v)

-- The loop of `_nextSaveAs`; `none` if the fuel ends first.
unfoldable pub free_from : Engine → ℕ → ℕ → List String → Option ℕ
free_from js zero cursor used = none
free_from js (suc fuel) cursor used =
    let rest = free_from js fuel (cursor + 1) used in
    if contains (template ("out_" ∷ count_text js cursor ∷ [])) used then rest else some cursor

abbrev pub saved_name : Engine → ℕ → String
saved_name js n = template ("out_" ∷ count_text js n ∷ [])

abbrev pub used_names : List Block → List String
used_names bs = map (λ s. clean s "") (save_as_list bs)

abbrev pub name_of_cursor : Engine → Option ℕ → Option String
name_of_cursor js none = none
name_of_cursor js (some cursor) = some (saved_name js cursor)

-- `_nextSaveAs`, with one round more than there are names in use.
unfoldable pub next_save_as : Engine → List Block → Option String
unfolding free_from
next_save_as js bs =
    let n = length (save_as_list bs) in
    name_of_cursor js (free_from js (suc n) (n + 1) (used_names bs))

-- `addWriteBlock`
unfoldable pub add_write_block : Engine → Draft → String → Value → Result (Draft × Block)
add_write_block js d command payload =
    let command_text = clean command "" in
    let n = d.write_count + 1 in
    if not d.started
    then throw "Create a new test draft first."
    else if command_text === ""
    then throw "Command is required."
    else elim (next_save_as js d.blocks) [
      | none ↦ throw "The loop of _nextSaveAs did not end."
      | some save_as ↦
          let b =
            write (template ("write_" ∷ count_text js n ∷ [])) command_text save_as
              (extract_output_text js payload) in
          done (record d { blocks = d.blocks ++ b ∷ []; write_count = n }, b)
    ]

-- The write block other than `id` that saves under the name.
unfoldable pub other_writer : String → String → List Block → Option String
other_writer id name [] = none
other_writer id name (read i k r ∷ bs) = other_writer id name bs
other_writer id name (write i c s o ∷ bs) =
    if not (i === id) && clean s "" === name then some i else other_writer id name bs

abbrev pub is_write_of : String → Block → Bool
is_write_of id (write i c s o) = i === id
is_write_of id (read i k r) = false

-- `this.blocks[index] = { ...this.blocks[index], saveAs }` at the first such write block
unfoldable pub set_save_as : String → String → List Block → List Block
set_save_as id name [] = []
set_save_as id name (read i k r ∷ bs) = read i k r ∷ set_save_as id name bs
set_save_as id name (write i c s o ∷ bs) =
    if i === id then write i c name o ∷ bs else write i c s o ∷ set_save_as id name bs

-- `updateWriteSaveAs`
unfoldable pub update_write_save_as : Engine → Draft → String → String → Result Draft
unfolding other_writer set_save_as
update_write_save_as js d block save_as =
    let id = clean block "" in
    let name = token js save_as in
    if name === "" then throw "saveAs is required." else elim (other_writer id name d.blocks) [
      | some other ↦
          throw (template ("saveAs '" ∷ name ∷ "' is already used by " ∷ other ∷ "." ∷ []))
      | none ↦
          if any (is_write_of id) d.blocks
          then done (record d { blocks = set_save_as id name d.blocks })
          else throw "Write block not found."
    ]

-- The arguments of `addOrUpdateReadBlock`.
pub record ReadForm : Type 0 where
  pub output_key : String
  pub input_ref : String
  pub kind : String
  pub needle : String
  pub needles : String
  pub lines : String
  pub require_all : Value

-- The end of `_buildReadSpec`, by the kind.
unfoldable pub spec_of_kind : ReadForm → String → String → Result ReadSpec
spec_of_kind f r kind =
    if kind === "contains_string"
    then (if clean f.needle "" === ""
        then throw "Needle is required for contains_string."
        else done (contains_string r (clean f.needle "")))
    else if kind === "contains_any_string"
    then (if is_empty (parse_comma_separated f.needles)
        then throw "Needles are required for contains_any_string."
        else done (contains_any_string r (parse_comma_separated f.needles)))
    else if kind === "contains_lines_unordered"
    then (if is_empty (parse_line_separated f.lines)
        then throw "Lines are required for contains_lines_unordered."
        else done
            (contains_lines_unordered r (parse_line_separated f.lines) (truthy f.require_all)))
    else throw (template ("Unsupported read kind '" ∷ kind ∷ "'." ∷ []))

-- `_buildReadSpec`
unfoldable pub build_read_spec : Engine → Draft → ReadForm → Result ReadSpec
unfolding spec_of_kind
build_read_spec js d f =
    let r = clean f.input_ref "" in
    if r === ""
    then throw "Read input ref is required."
    else if not (contains r (save_as_list d.blocks))
    then throw (template ("Read input ref '" ∷ r ∷ "' is not available." ∷ []))
    else spec_of_kind f r (js.lower (clean f.kind ""))

abbrev pub is_read_of : String → Block → Bool
is_read_of id (write i c s o) = false
is_read_of id (read i k r) = i === id

unfoldable pub set_read : String → String → ReadSpec → List Block → List Block
set_read id key spec [] = []
set_read id key spec (write i c s o ∷ bs) = write i c s o ∷ set_read id key spec bs
set_read id key spec (read i k r ∷ bs) =
    if i === id then read i key spec ∷ bs else read i k r ∷ set_read id key spec bs

-- The part of `addOrUpdateReadBlock` that follows the checks; the flag is `updated`.
unfoldable pub store_read : Engine → Draft → String → ReadSpec → Result (Draft × Bool)
unfolding set_read
store_read js d key spec =
    if d.read_edit_block_id === ""
    then done (
      record d {
        blocks =
            d.blocks
            ++ read (template ("read_" ∷ count_text js (d.read_count + 1) ∷ [])) key spec ∷ [];
        read_count = d.read_count + 1;
      },
      false,
    )
    else if any (is_read_of d.read_edit_block_id) d.blocks
    then done (
      record d {
        blocks = set_read d.read_edit_block_id key spec d.blocks;
        read_edit_block_id = "";
      },
      true,
    )
    else throw "Edited read block was not found."

-- `addOrUpdateReadBlock`
unfoldable pub add_or_update_read_block : Engine → Draft → ReadForm → Result (Draft × Bool)
unfolding build_read_spec store_read
add_or_update_read_block js d f =
    let key = token js f.output_key in
    if not d.started
    then throw "Create a new test draft first."
    else if key === ""
    then throw "Read output key is required."
    else if not (has_key key d.outputs)
    then throw (template ("Output '" ∷ key ∷ "' does not exist." ∷ []))
    else elim (build_read_spec js d f) [
      | throw message ↦ throw message
      | done spec ↦ store_read js d key spec
    ]

-- `removeBlock`
unfoldable pub remove_block : Draft → String → Draft
remove_block d block =
    let id = clean block "" in
    record d {
      blocks = filter (λ b. not (block_id b === id)) d.blocks;
      read_edit_block_id = if d.read_edit_block_id === id then "" else d.read_edit_block_id;
    }
