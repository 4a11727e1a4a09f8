-- ===== src/Routes.antt =====
-- The views of the page and its address
-- (assets/js/modules/dashboard/controllers/runtime/dashboardRuntimeDetailShell.js,
-- `setActiveManageTab` of dashboardRuntimeManageRecorder.js, and `routeFromHash` with the listener
-- for `hashchange` of dashboardRuntimeDataInit.js). Forms, messages and sessions of the terminals
-- are left out.
pub mod RoundTrip
pub mod Views
use robot_maintanance.Prelude.{
  ℕ, suc, ◌+◌, String, Bool, true, false, not, ◌&&◌, ◌||◌, Option, none, some, List, [], ◌∷◌, map,
  any, filter, is_some, contains, ◌===◌, ◌≡◌, if◌then◌else◌,
}
use robot_maintanance.Js.{Value, null, str, template, starts_with, slice, without_hash, second_part}
use robot_maintanance.Js.Engine.{Engine}
use robot_maintanance.Normalize.{clean, normalize_text}
use robot_maintanance.Fleet.{Robot, id_of}
use robot_maintanance.OnlineCheck.{get_robot_by_id}

-- MANAGE_VIEW_HASH and MANAGE_TABS
abbrev pub manage_view_hash : String
manage_view_hash = "manage-robots"

abbrev pub manage_tabs : List String
manage_tabs = "robots" ∷ "tests" ∷ "fixes" ∷ "recorder" ∷ []

-- The browser: the engine, how it writes a fragment that it is given in `location.hash`, and
-- whether it lets the page read and write the session storage.
pub record Browser : Type 0 where
  pub js : Engine
  pub fragment : String → String
  pub reads : Bool
  pub writes : Bool

-- Which sections have the class `active`, the fields of `state`, the item of the session storage,
-- `location.hash`, and the number of `hashchange` events that the browser has not delivered yet.
pub record Page : Type 0 where
  pub robots : List Robot
  pub dashboard_active : Bool
  pub detail_active : Bool
  pub manage_active : Bool
  pub detail_robot_id : Option String
  pub active_manage_tab : String
  pub ignore_next_hash_change : Bool
  pub stored_tab : Value
  pub hash : String
  pub events : ℕ

-- `normalizeManageTab`
unfoldable pub normalize_manage_tab : Engine → Value → String
normalize_manage_tab js tab =
    let normalized = js.lower (normalize_text js tab "") in
    if contains normalized manage_tabs then normalized else ""

-- `getPersistedManageTab` and `persistManageTab`
abbrev pub persisted_manage_tab : Browser → Page → String
persisted_manage_tab b p = if b.reads then normalize_manage_tab b.js p.stored_tab else ""

abbrev pub persist_manage_tab : Browser → String → Page → Page
persist_manage_tab b tab p =
    let normalized = normalize_manage_tab b.js (str tab) in
    if normalized === "" || not b.writes then p else record p { stored_tab = str normalized }

-- `a || b` of texts
abbrev pub or_text : String → String → String
or_text a b = if a === "" then b else a

-- `resolveManageTab`
unfoldable pub resolve_manage_tab : Browser → Page → String → String
resolve_manage_tab b p tab = or_text (normalize_manage_tab b.js (str tab)) (
    or_text (persisted_manage_tab b p)
      (or_text (normalize_manage_tab b.js (str p.active_manage_tab)) "robots"))

-- `buildManageHash`
unfoldable pub build_manage_hash : Engine → String → String
build_manage_hash js tab =
    let normalized = or_text (normalize_manage_tab js (str tab)) "robots" in
    if normalized === "robots"
    then manage_view_hash
    else template (manage_view_hash ∷ "/" ∷ normalized ∷ [])

-- `parseManageRoute`: `none` where the route is not one of the management page.
unfoldable pub parse_manage_route : Engine → String → Option String
parse_manage_route js hash_value =
    let hash = without_hash (clean hash_value "") in
    if hash === manage_view_hash || hash === "add-robot"
    then some ""
    else if not (starts_with "manage-robots/" hash)
    then none
    else some (or_text (normalize_manage_tab js (str (slice 14 hash))) "robots")

-- The browser's part of an assignment to `location.hash`: an event where the address changes.
unfoldable pub assign : String → Page → Page
assign next p = if next === p.hash then p else record p { hash = next; events = p.events + 1 }

abbrev pub written : Browser → String → String
written b next =
    let fragment = b.fragment next in if fragment === "" then "" else template ("#" ∷ fragment ∷ [])

-- `setLocationHash`
unfoldable pub set_location_hash : Browser → String → Page → Page
unfolding assign
set_location_hash b hash_value p =
    let next = without_hash (clean hash_value "") in
    let current = without_hash (clean p.hash "") in
    if current === next
    then p
    else assign (written b next) (record p { ignore_next_hash_change = true })

-- `openDetail`
unfoldable pub open_detail : Browser → String → Bool → Page → Page
unfolding set_location_hash
open_detail b id sync_hash p =
    let opened = record p {
      detail_robot_id = some id;
      manage_active = false;
      dashboard_active = false;
      detail_active = true;
    } in
    if not (any (λ r. r.id === id) p.robots)
    then p
    else if sync_hash
    then set_location_hash b (template ("robot/" ∷ id ∷ [])) opened
    else opened

-- `setActiveManageTab`
unfoldable pub set_active_manage_tab : Browser → String → Bool → Bool → Page → Page
unfolding resolve_manage_tab build_manage_hash set_location_hash
set_active_manage_tab b tab sync_hash persist p =
    let normalized = resolve_manage_tab b p tab in
    let chosen = record p { active_manage_tab = normalized } in
    let kept = if persist then persist_manage_tab b normalized chosen else chosen in
    if sync_hash then set_location_hash b (build_manage_hash b.js normalized) kept else kept

-- `showAddRobotPage`
unfoldable pub show_add_robot_page : Browser → String → Bool → Page → Page
unfolding set_active_manage_tab
show_add_robot_page b tab sync_hash p =
    let cleared = record p {
      detail_robot_id = none;
      detail_active = false;
      dashboard_active = false;
    } in
    let active = resolve_manage_tab b cleared tab in
    let shown = record (set_active_manage_tab b active false true cleared) {
      manage_active = true;
    } in
    if sync_hash then set_location_hash b (build_manage_hash b.js active) shown else shown

-- `showDashboard`
unfoldable pub show_dashboard : Browser → Bool → Page → Page
unfolding set_location_hash
show_dashboard b sync_hash p =
    let shown = record p {
      detail_active = false;
      manage_active = false;
      dashboard_active = true;
      detail_robot_id = none;
    } in
    if sync_hash then set_location_hash b "" shown else shown

abbrev pub route_elsewhere : Browser → String → Page → Page
unfolding open_detail
route_elsewhere b hash p =
    let id = second_part hash in
    if not (starts_with "robot/" hash) || id === "" then p else open_detail b id false p

abbrev pub routed : Browser → String → Option String → Page → Page
unfolding show_add_robot_page
routed b hash none p = route_elsewhere b hash p
routed b hash (some tab) p = show_add_robot_page b tab (hash === "add-robot") p

-- `routeFromHash`
unfoldable pub route_from_hash : Browser → Page → Page
unfolding show_dashboard parse_manage_route
route_from_hash b p =
    let hash = without_hash p.hash in
    if hash === "" then show_dashboard b false p else routed b hash (parse_manage_route b.js hash) p

-- The listener for `hashchange`
unfoldable pub hash_changed : Browser → Page → Page
unfolding route_from_hash
hash_changed b p =
    if p.ignore_next_hash_change
    then record p { ignore_next_hash_change = false }
    else if p.hash === ""
    then show_dashboard b false p
    else route_from_hash b p

abbrev pub detail_id : Option String → String
detail_id o = elim o [ none ↦ "" | some id ↦ id ]

-- The views after `refreshRobotsFromBackendSnapshot` has loaded the robots: `captured` is the robot
-- in detail when it began, `none` for none.
unfoldable pub robots_refreshed : Browser → Option String → List Robot → Page → Page
unfolding get_robot_by_id
robots_refreshed b captured robots p =
    let previous = clean (detail_id captured) "" in
    let gone =
      not (previous === "")
      && not (contains previous (filter (λ id. not (id === "")) (map id_of robots))) in
    let after = record p {
      robots = robots;
      detail_robot_id = if gone then none else p.detail_robot_id;
    } in
    if p.detail_active
      && not (is_some (get_robot_by_id robots (or_text previous (detail_id after.detail_robot_id))))
    then show_dashboard b false after
    else after
