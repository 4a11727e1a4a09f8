-- ===== src/Manage/Loading.antt =====
-- Loading the definitions on the management page: `loadDefinitionsSummary`
-- (assets/js/modules/dashboard/controllers/runtime/dashboardRuntimeManageRecorder.js) up to its request
-- and from the answer on. `JSON.parse` and the answer are arguments.
use robot_maintanance.Prelude.{
  String, Bool, true, false, not, ◌&&◌, ◌||◌, Option, none, some, [], ◌∷◌, ◌===◌, ◌≡◌, ◌⊎◌, inl,
  inr, refl, arith, if◌then◌else◌,
}
use robot_maintanance.Js.{Value, obj, no_fields, get, template, trim, includes, starts_with}
use robot_maintanance.Normalize.{clean, normalize_text}
use robot_maintanance.Recorder.Draft.{Result, done, throw}
use robot_maintanance.Manage.{normalize_definitions_summary}
use robot_maintanance.Manage.Saving.{Reading, Parsed, parsed, unparsed, Result-cases}
use robot_maintanance.Manage.Saving.Pages.{ok, warn, error, DefinitionsPage}

-- The answer to the request: its status, content type and text, or the message of an exception.
pub data SummaryReply : Type 0 where
  summary_answer : Bool → String → String → String → SummaryReply
  no_answer : String → SummaryReply

-- `loadDefinitionsSummary` up to its request: `none` where one is under way.
unfoldable pub begin_load : DefinitionsPage → Option DefinitionsPage
begin_load p =
    if p.is_manage_summary_loading
    then none
    else some (record p {
      is_manage_summary_loading = true;
      tab_status = ("Loading definitions...", warn);
    })

abbrev expects_json : Reading → String → String → Bool
expects_json x content_type raw =
    includes "json" (x.js.lower (clean content_type ""))
    || starts_with "{" (trim raw)
    || starts_with "[" (trim raw)

abbrev unable : String → String
unable status = template ("Unable to load definitions summary (HTTP " ∷ status ∷ ")." ∷ [])

abbrev accepted_summary : Bool → String → Parsed → Result Value
accepted_summary json raw (unparsed m) =
    throw "Definitions summary response could not be parsed as JSON."
accepted_summary json raw (parsed payload) =
    if not json && not (raw === "")
    then throw "Definitions summary response was not JSON."
    else done payload

abbrev refused_summary : Reading → String → String → Parsed → String
refused_summary x status raw (unparsed m) = unable status
refused_summary x status raw (parsed payload) =
    normalize_text x.js (get payload "detail") (if raw === "" then unable status else raw)

-- The text is parsed where it is not empty and looks like JSON; the payload is `{}` otherwise.
abbrev payload_of : Reading → Bool → String → Parsed
payload_of x json raw = if not (raw === "") && json then x.parse raw else parsed (obj no_fields)

-- The `try` block after the request
unfoldable pub read_summary : Reading → SummaryReply → Result Value
read_summary x (no_answer m) = throw m
read_summary x (summary_answer good status content_type raw) =
    let json = expects_json x content_type raw in
    if good
    then accepted_summary json raw (payload_of x json raw)
    else throw (refused_summary x status raw (payload_of x json raw))

abbrev loaded : Result Value → DefinitionsPage → DefinitionsPage
unfolding normalize_definitions_summary
loaded (throw m) p = record p {
  tab_status = (template ("Definitions load failed: " ∷ m ∷ []), error);
}
loaded (done payload) p = record p {
  definitions_summary = normalize_definitions_summary payload;
  tab_status = ("Definitions loaded.", ok);
}

-- `loadDefinitionsSummary` from the answer on, with its `finally`
unfoldable pub end_load : Reading → SummaryReply → DefinitionsPage → DefinitionsPage
unfolding loaded read_summary
end_load x reply p = record (loaded (read_summary x reply) p) { is_manage_summary_loading = false }

begin_load-page :
    (p q : DefinitionsPage)
    → begin_load p ≡ some q
    → (q.is_manage_summary_loading ≡ true) × (q.definitions_summary ≡ p.definitions_summary)
unfolding begin_load
begin_load-page p q e = ground (arith, e)

-- While the definitions load, no second request begins; whatever the answer, the next one can begin
-- afterwards, and the page has the definitions of the answer where it could be read, or else its old
-- ones and a message.
pub end_load-begins_again :
    (x : Reading) (reply : SummaryReply) (p q : DefinitionsPage)
    → begin_load p ≡ some q
    → (begin_load q ≡ none)
      × ((end_load x reply q).is_manage_summary_loading ≡ false)
      × (((payload : Value) × (read_summary x reply ≡ done payload)
            × ((end_load x reply q).definitions_summary ≡ normalize_definitions_summary payload))
          ⊎ ((m : String) × (read_summary x reply ≡ throw m)
              × ((end_load x reply q).definitions_summary ≡ p.definitions_summary)
              × ((end_load x reply q).tab_status.1 ≡ error)))
unfolding begin_load end_load
end_load-begins_again x reply p q e =
    let (l, k) = begin_load-page p q e in
    elim (Result-cases (read_summary x reply)) [
      | inl (m, g) ↦ (rw l refl, refl, inr (m, g, rw g k, rw g refl))
      | inr (payload, g) ↦ (rw l refl, refl, inl (payload, g, rw g refl))
    ]
