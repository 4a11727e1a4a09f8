-- ===== src/Recorder/Publishing.antt =====
-- `buildTestDefinition` succeeds exactly when the draft shows no blocking issue.
use robot_maintanance.Prelude.{
  ℕ, is_empty, filter, ◌+◌, String, Bool, true, false, not, List, [], ◌∷◌, ◌++◌, map, ◌≡◌, refl, ap,
  ◌≢◌, ◌===◌, arith, eq_iff, inl, inr, Bool-cases, any, some,
}
use robot_maintanance.Js.Engine.{Engine}
use robot_maintanance.Recorder.Token.{token}
use robot_maintanance.Recorder.Token.Laws.{IsToken, token-IsToken, token_of_IsToken}
use robot_maintanance.Recorder.Draft.{
  done, throw, Output, ReadSpec, Block, write, read, Draft, save_as_list, blocking_issues,
  unread_issues, output_has_reads, reads_output, issue_if, is_write,
}
use robot_maintanance.Recorder.Publish.{
  Step, Check, CompiledRead, Definition, read_rules_for, check_id, steps_from, check_of, compile,
  checks_of, get_check_ids, build_test_definition, definition_of,
}

-- What the identifiers rely on: `toLowerCase` leaves a token as it is.
abbrev pub KeepsTokens : Engine → Type 0
KeepsTokens js = (s : String) → IsToken s → js.lower s ≡ s

rules_of_reads :
    (key : String) (bs : List Block)
    → any (reads_output key) bs ≡ true
    → (r : ReadSpec) × (rs : List ReadSpec) × (read_rules_for key bs ≡ r ∷ rs)
unfolding read_rules_for
rules_of_reads key [] h = absurd (no h)
  where
    no : false ≡ true → ⊥
    no e = cc
rules_of_reads key (write i c s o ∷ bs) h = rules_of_reads key bs h
rules_of_reads key (read i k r ∷ bs) h = elim (Bool-cases (k === key)) [
  | inl e ↦ rw e (r, read_rules_for key bs, refl)
  | inr e ↦ rw e (rules_of_reads key bs (ground arith))
]

compile_of_rules :
    (rs : List ReadSpec) (r : ReadSpec) (rest : List ReadSpec)
    → rs ≡ r ∷ rest
    → (c : CompiledRead) × (compile rs ≡ some c)
compile_of_rules [] r rest e = absurd (no e)
  where
    no : ◌≡◌ {A = List ReadSpec} [] (r ∷ rest) → ⊥
    no e = cc
compile_of_rules (s ∷ []) r rest e = (CompiledRead.single s, refl)
compile_of_rules (s ∷ t ∷ rs) r rest e = (CompiledRead.all_of (s ∷ t ∷ rs), refl)

module _ (js : Engine) (id : String) (d : Draft) where
  unread :
      (o : Output) (os : List Output)
      → any (reads_output o.key) d.blocks ≡ false
      → unread_issues d (o ∷ os) ≡ []
      → ⊥
  unfolding unread_issues output_has_reads
  unread o os e h = ground (arith, e, h)

  -- The loop over the outputs gives one check for each, in order.
  checks_complete :
      (os : List Output)
      → unread_issues d os ≡ []
      → (cs : List Check) × (checks_of js id d.blocks os ≡ done cs)
        × (map (λ (c : Check). c.id) cs ≡ map (check_id js id) os)
  unfolding unread_issues output_has_reads checks_of
  checks_complete [] h = ([], refl, refl)
  checks_complete (o ∷ os) h = elim (Bool-cases (any (reads_output o.key) d.blocks)) [
    | inl has ↦
        let (cs, e, ids) = checks_complete os (ground arith) in
        let (r, rs, rules) = rules_of_reads o.key d.blocks has in
        let (c, compiled) = compile_of_rules _ r rs rules in
        (check_of js id o c ∷ cs, rw (compiled, e), ap (check_id js id o ∷◌) ids)
    | inr lacks ↦ absurd (unread o os lacks h)
  ]

save_as-steps_from :
    (js : Engine) (n : ℕ) (bs : List Block)
    → map (λ (s : Step). s.save_as) (steps_from js n bs) ≡ save_as_list bs
unfolding steps_from
save_as-steps_from js n [] = refl
save_as-steps_from js n (read i k r ∷ bs) = save_as-steps_from js n bs
save_as-steps_from js n (write i c s o ∷ bs) = ap (s ∷◌) (save_as-steps_from js (n + 1) bs)

test_of_ne : (s t : String) → s ≢ t → (s === t) ≡ false
test_of_ne s t h = ground (arith, eq_iff s t)

issue_if_nil :
    (b : Bool) (m : String) (ms : List String) → issue_if b m ++ ms ≡ [] → (b ≡ false) × (ms ≡ [])
issue_if_nil true m ms h = absurd (no h)
  where
    no : m ∷ ms ≡ [] → ⊥
    no e = cc
issue_if_nil false m ms h = (refl, h)

append_nil_left : (ms ns : List String) → ms ++ ns ≡ [] → (ms ≡ []) × (ns ≡ [])
append_nil_left [] ns h = (refl, h)
append_nil_left (m ∷ ms) ns h = absurd (no h)
  where
    no : m ∷ (ms ++ ns) ≡ [] → ⊥
    no e = cc

-- The parts of a draft without issues.
no_issues :
    (js : Engine) (d : Draft) (id : String)
    → blocking_issues js d id ≡ []
    → (unread_issues d d.outputs ≡ []) × ((token js id === "") ≡ false)
unfolding blocking_issues
no_issues js d id h =
    let (a, h1) = issue_if_nil (not d.started) "Click \"Create new test\" to start a draft." _ h in
    let (b, h2) =
      issue_if_nil (is_empty (filter is_write d.blocks)) "Add at least one write block." _ h1 in
    let (c, h3) = issue_if_nil (is_empty d.outputs) "Add at least one output." _ h2 in
    let (u, h4) = append_nil_left (unread_issues d d.outputs) _ h3 in
    (u, last (token js id === "") h4)
  where
    last : (b : Bool) → issue_if b "Definition ID is required." ≡ [] → b ≡ false
    last true e = cc
    last false e = refl

module _ (js : Engine) (lower : KeepsTokens js) where
  token-token : (s : String) → token js (token js s) ≡ token js s
  token-token s =
      token_of_IsToken js (token js s) (lower _ (token-IsToken js s)) (token-IsToken js s)

  -- The issues of the normalised id are those of the id itself.
  blocking_issues-token :
      (d : Draft) (id : String) → blocking_issues js d (token js id) ≡ blocking_issues js d id
  unfolding blocking_issues
  blocking_issues-token d id = rw (token-token id)

  -- What a published definition holds: its id, a step for each write block and a check for each
  -- output, under the ids that `getCheckIdsForDefinition` lists.
  pub record Publishes (d : Draft) (definition_id : String) (r : Definition) : Type 0 where
    pub id : r.id ≡ token js definition_id
    pub steps : map (λ (s : Step). s.save_as) r.execute ≡ save_as_list d.blocks
    pub checks : map (λ (c : Check). c.id) r.checks ≡ get_check_ids js d definition_id

  -- Where `toLowerCase` keeps tokens, a draft that shows no blocking issue is published: under the
  -- normalised id, with a step for each write block and a check for each output.
  pub publish_ready :
      (d : Draft) (definition_id label : String)
      → blocking_issues js d definition_id ≡ []
      → (r : Definition) × (build_test_definition js d definition_id label ≡ done r)
        × Publishes d definition_id r
  unfolding build_test_definition get_check_ids
  publish_ready d definition_id label h =
      let id : String = token js definition_id in
      let (u, named) = no_issues js d definition_id h in
      let (cs, e, ids) = checks_complete js id d d.outputs u in
      (
        definition_of js d id label cs,
        rw (named, blocking_issues-token d definition_id, h, e) refl,
        record { id = refl; steps = save_as-steps_from js 1 d.blocks; checks = rw named ids },
      )

  -- Where `toLowerCase` keeps tokens and the normalised id is not empty, publishing a draft with
  -- blocking issues throws the first of them.
  pub publish_blocked :
      (d : Draft) (definition_id label issue : String) (issues : List String)
      → blocking_issues js d definition_id ≡ issue ∷ issues
      → token js definition_id ≢ ""
      → build_test_definition js d definition_id label ≡ throw issue
  unfolding build_test_definition
  publish_blocked d definition_id label issue issues h ne =
      rw (test_of_ne (token js definition_id) "" ne, blocking_issues-token d definition_id, h) refl
