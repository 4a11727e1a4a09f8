-- ===== src/Routes/Views.antt =====
-- One view at a time, whatever the user and the backend do.
use robot_maintanance.Prelude.{
  ℕ, suc, String, Bool, true, false, not, ◌&&◌, ◌||◌, Option, none, some, List, [], ◌∷◌, any,
  is_some, filter, map, contains, ◌===◌, ◌≡◌, if◌then◌else◌, refl, ◌∙◌, arith, eq_iff, if-Holds,
  Bool-cases, inl, inr,
}
use robot_maintanance.Js.{Value, template, starts_with, without_hash, second_part}
use robot_maintanance.Normalize.{clean}
use robot_maintanance.Fleet.{Robot, id_of}
use robot_maintanance.Fleet.Ids.{robot_id-robot_id}
use robot_maintanance.OnlineCheck.{get_robot_by_id}
use robot_maintanance.Routes.{
  Browser, Page, assign, set_location_hash, open_detail, set_active_manage_tab, resolve_manage_tab,
  build_manage_hash, persist_manage_tab, show_add_robot_page, show_dashboard, route_elsewhere,
  routed, route_from_hash, parse_manage_route, hash_changed, robots_refreshed, detail_id, or_text,
}

-- Exactly one section is active, and a robot is shown in detail exactly in the detail view.
abbrev pub is_one_view : Page → Bool
is_one_view p =
    if p.dashboard_active
    then not p.detail_active && not p.manage_active && not (is_some p.detail_robot_id)
    else if p.detail_active
    then not p.manage_active && is_some p.detail_robot_id
    else p.manage_active && not (is_some p.detail_robot_id)

-- What the user, the page and the backend do, in any order: open a robot, a tab of the management
-- page or the dashboard, go to another address, deliver an event, load the robots. The robots that
-- arrive were asked for at any time before, when any robot or none was shown; the first load, which
-- comes with no robots where it fails, follows the address.
pub data PageStep (b : Browser) : Page → Page → Type 0 where
  opens : (id : String) (p : Page) → PageStep b p (open_detail b id true p)
  manages : (tab : String) (p : Page) → PageStep b p (show_add_robot_page b tab true p)
  changes_tab : (tab : String) (p : Page) → PageStep b p (set_active_manage_tab b tab true true p)
  returns : (p : Page) → PageStep b p (show_dashboard b true p)
  goes_to : (hash : String) (p : Page) → PageStep b p (assign hash p)
  hears :
      (n : ℕ) (p : Page)
      → p.events ≡ suc n
      → PageStep b p (hash_changed b (record p { events = n }))
  refreshes :
      (captured : Option String) (robots : List Robot) (p : Page)
      → PageStep b p (robots_refreshed b captured robots p)
  first_loads :
      (robots : List Robot) (p : Page)
      → PageStep b p (route_from_hash b (record p { robots = robots }))

-- The page as it is loaded, at some address with some stored tab
abbrev pub first_page : String → Value → Page
first_page hash stored = record {
  robots = [];
  dashboard_active = true;
  detail_active = false;
  manage_active = false;
  detail_robot_id = none;
  active_manage_tab = "robots";
  ignore_next_hash_change = false;
  stored_tab = stored;
  hash = hash;
  events = 0;
}

pub data Visited (b : Browser) : Page → Type 0 where
  loaded : (hash : String) (stored : Value) → Visited b (first_page hash stored)
  visited_next : (p q : Page) → Visited b p → PageStep b p q → Visited b q

assign-view : (next : String) (p : Page) → is_one_view (assign next p) ≡ is_one_view p
unfolding assign
assign-view next p = ground arith

set_location_hash-view :
    (b : Browser) (v : String) (p : Page) → is_one_view (set_location_hash b v p) ≡ is_one_view p
unfolding set_location_hash assign
set_location_hash-view b v p = ground arith

synced-view :
    (b : Browser) (v : String) (sync : Bool) (p : Page)
    → is_one_view (if sync then set_location_hash b v p else p) ≡ is_one_view p
synced-view b v true p = set_location_hash-view b v p
synced-view b v false p = refl

set_active_manage_tab-view :
    (b : Browser) (tab : String) (s k : Bool) (p : Page)
    → is_one_view (set_active_manage_tab b tab s k p) ≡ is_one_view p
unfolding set_active_manage_tab
set_active_manage_tab-view b tab s k p =
    let normalized = resolve_manage_tab b p tab in
    let chosen = record p { active_manage_tab = normalized } in
    let kept = if k then persist_manage_tab b normalized chosen else chosen in
    synced-view b (build_manage_hash b.js normalized) s kept ∙ kept-view k normalized chosen
  where
    kept-view :
        (keep : Bool) (t : String) (q : Page)
        → is_one_view (if keep then persist_manage_tab b t q else q) ≡ is_one_view q
    kept-view false t q = refl
    kept-view true t q = ground arith

show_dashboard-view :
    (b : Browser) (s : Bool) (p : Page) → is_one_view (show_dashboard b s p) ≡ true
unfolding show_dashboard
show_dashboard-view b s p = synced-view b "" s _

-- With the management section made active, only the other two count.
managed-view :
    (b : Browser) (tab : String) (p : Page)
    → is_one_view (record (set_active_manage_tab b tab false true p) { manage_active = true })
      ≡ is_one_view (record p { manage_active = true })
unfolding set_active_manage_tab
managed-view b tab p = ground arith

show_add_robot_page-view :
    (b : Browser) (tab : String) (s : Bool) (p : Page)
    → is_one_view (show_add_robot_page b tab s p) ≡ true
unfolding show_add_robot_page
show_add_robot_page-view b tab s p =
    let cleared = record p {
      detail_robot_id = none;
      detail_active = false;
      dashboard_active = false;
    } in
    let active = resolve_manage_tab b cleared tab in
    let shown = record (set_active_manage_tab b active false true cleared) {
      manage_active = true;
    } in
    synced-view b (build_manage_hash b.js active) s shown ∙ managed-view b active cleared

open_detail-view :
    (b : Browser) (id : String) (s : Bool) (p : Page)
    → is_one_view p ≡ true
    → is_one_view (open_detail b id s p) ≡ true
unfolding open_detail
open_detail-view b id s p h =
    let opened = record p {
      detail_robot_id = some id;
      manage_active = false;
      dashboard_active = false;
      detail_active = true;
    } in
    if-Holds (λ x. is_one_view x ≡ true) (not (any (λ r. r.id === id) p.robots)) p
      (if s then set_location_hash b (template ("robot/" ∷ id ∷ [])) opened else opened)
      (λ unknown. h) (λ known. synced-view b (template ("robot/" ∷ id ∷ [])) s opened)

routed-view :
    (b : Browser) (hash : String) (route : Option String) (p : Page)
    → is_one_view p ≡ true
    → is_one_view (routed b hash route p) ≡ true
unfolding routed route_elsewhere
routed-view b hash (some tab) p h = show_add_robot_page-view b tab (hash === "add-robot") p
routed-view b hash none p h =
    if-Holds (λ x. is_one_view x ≡ true)
      (not (starts_with "robot/" hash) || second_part hash === "") p
      (open_detail b (second_part hash) false p) (λ elsewhere. h)
      (λ robot. open_detail-view b (second_part hash) false p h)

route_from_hash-view :
    (b : Browser) (p : Page) → is_one_view p ≡ true → is_one_view (route_from_hash b p) ≡ true
unfolding route_from_hash
route_from_hash-view b p h =
    if-Holds (λ x. is_one_view x ≡ true) (without_hash p.hash === "") (show_dashboard b false p)
      (routed b (without_hash p.hash) (parse_manage_route b.js (without_hash p.hash)) p)
      (λ blank. show_dashboard-view b false p)
      (λ given.
        routed-view b (without_hash p.hash) (parse_manage_route b.js (without_hash p.hash)) p h)

hash_changed-view :
    (b : Browser) (p : Page) → is_one_view p ≡ true → is_one_view (hash_changed b p) ≡ true
unfolding hash_changed
hash_changed-view b p h =
    if-Holds (λ x. is_one_view x ≡ true) p.ignore_next_hash_change
      (record p { ignore_next_hash_change = false })
      (if p.hash === "" then show_dashboard b false p else route_from_hash b p) (λ own. h)
      (λ foreign.
        if-Holds (λ x. is_one_view x ≡ true) (p.hash === "") (show_dashboard b false p)
          (route_from_hash b p) (λ blank. show_dashboard-view b false p)
          (λ given. route_from_hash-view b p h))

found-contains :
    (rs : List Robot) (id : String)
    → is_some (get_robot_by_id rs id) ≡ true
    → contains (clean id "") (filter (λ i. not (i === "")) (map id_of rs)) ≡ true
unfolding get_robot_by_id contains
found-contains [] id e = cc
found-contains (r ∷ rs) id e =
    ground (arith, eq_iff (id_of r) "", eq_iff (id_of r) (clean id ""), found-contains rs id)

abbrev ids_of : List Robot → List String
ids_of robots = filter (λ id. not (id === "")) (map id_of robots)

-- A robot that is found is not gone.
found-not_gone :
    (robots : List Robot) (d other : String)
    → is_some (get_robot_by_id robots (or_text (clean d "") other)) ≡ true
    → (not (clean d "" === "") && not (contains (clean d "") (ids_of robots))) ≡ false
found-not_gone robots d other e = elim (Bool-cases (clean d "" === "")) [
  | inl blank ↦ rw blank refl
  | inr named ↦
      ground
        (arith, named, e, robot_id-robot_id d, found-contains robots (or_text (clean d "") other))
]

kept-view :
    (p : Page) (robots : List Robot) (gone found : Bool)
    → is_one_view p ≡ true
    → (found ≡ true → gone ≡ false)
    → (p.detail_active && not found) ≡ false
    → is_one_view
        (record p { robots = robots; detail_robot_id = if gone then none else p.detail_robot_id })
      ≡ true
kept-view p robots false found h f k = h
kept-view p robots true true h f k = ground (arith, f refl)
kept-view p robots true false h f k = ground (arith, h, k)

robots_refreshed-view :
    (b : Browser) (captured : Option String) (robots : List Robot) (p : Page)
    → is_one_view p ≡ true
    → is_one_view (robots_refreshed b captured robots p) ≡ true
unfolding robots_refreshed
robots_refreshed-view b captured robots p h =
    let previous = clean (detail_id captured) "" in
    let gone = not (previous === "") && not (contains previous (ids_of robots)) in
    let shown = if gone then none else p.detail_robot_id in
    let after = record p { robots = robots; detail_robot_id = shown } in
    let found = is_some (get_robot_by_id robots (or_text previous (detail_id shown))) in
    if-Holds (λ x. is_one_view x ≡ true) (p.detail_active && not found)
      (show_dashboard b false after) after (λ lost. show_dashboard-view b false after)
      (λ kept.
        kept-view p robots gone found h
          (found-not_gone robots (detail_id captured) (detail_id shown)) kept)

step-view :
    (b : Browser) (p q : Page) → PageStep b p q → is_one_view p ≡ true → is_one_view q ≡ true
step-view b _ _ (opens id p) h = open_detail-view b id true p h
step-view b _ _ (manages tab p) h = show_add_robot_page-view b tab true p
step-view b _ _ (changes_tab tab p) h = set_active_manage_tab-view b tab true true p ∙ h
step-view b _ _ (returns p) h = show_dashboard-view b true p
step-view b _ _ (goes_to hash p) h = assign-view hash p ∙ h
step-view b _ _ (hears n p e) h = hash_changed-view b (record p { events = n }) h
step-view b _ _ (refreshes captured robots p) h = robots_refreshed-view b captured robots p h
step-view b _ _ (first_loads robots p) h = route_from_hash-view b (record p { robots = robots }) h

-- Whatever the user opens, in whatever order events and robots arrive, and whichever robot was shown
-- when the robots were asked for: exactly one of the three
-- views is active, and a robot is kept for the detail view exactly while that view is active.
pub Visited-view : (b : Browser) (p : Page) → Visited b p → is_one_view p ≡ true
Visited-view b _ (loaded hash stored) = refl
Visited-view b _ (visited_next p q v step) = step-view b p q step (Visited-view b p v)
