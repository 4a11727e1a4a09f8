-- ===== src/Examples/Pages.antt =====
-- The theorems on the pages, the monitor and the models, applied.
use robot_maintanance.Prelude.{
  ◌<◌, String, true, false, none, some, List, [], ◌∷◌, ◌++◌, ◌≡◌, refl, contains, map, length,
  lookup, ◌===◌, if◌then◌else◌,
}
use robot_maintanance.Js.{Value, null, str, num, obj, field, no_fields, thousandths, get}
use robot_maintanance.Routes.{
  Browser, show_add_robot_page, manage_tabs, build_manage_hash, parse_manage_route,
}
use robot_maintanance.Routes.Views.{
  is_one_view, loaded, visited_next, manages, first_page, Visited-view,
}
use robot_maintanance.Routes.RoundTrip.{named_tab, parse_manage_route-build}
use robot_maintanance.Monitor.{clamp_fleet_parallelism}
use robot_maintanance.Monitor.Parallelism.{
  Parallelism, fire_timer, answer_ok, answer_failed, fires, answers, Syncs, started, synced,
  at_start,
}
use robot_maintanance.Monitor.Settled.{Syncs-settled, answer_failed-stale}
use robot_maintanance.Monitor.Applying.{
  MonitorPage, first_monitor_page, warn, config_refused, begin_apply, end_apply,
  started as first_state, begins, ends, flag_count, Monitored-IsLimited,
}
use robot_maintanance.Monitor.Bounds.{IsLimited}
use robot_maintanance.ModelAssets.{
  Level, all_levels, default_quality_levels, start_index, candidates_of, build_path_for_quality,
}
use robot_maintanance.ModelAssets.Resolving.{
  Fetch, response, broken, new_resolver, resolve_all, resolve_model_url, cache_key,
}
use robot_maintanance.ModelAssets.Once.{
  IsCached, expected_url, resolve_all-once, resolve_model_url-expected,
}
use robot_maintanance.ModelAssets.Rotation.{candidates_of-rotation}
use robot_maintanance.ModelAssets.Viewer.{
  Viewer, Binding, first_bound, next_bound, arrives, bind, arrive, ShowsBinding, Bound-ShowsBinding,
}
use robot_maintanance.Examples.{plain}

abbrev browser : Browser
browser = record { js = plain; fragment = λ s. s; reads = true; writes = true }

Visited-view_example :
    is_one_view (show_add_robot_page browser "tests" true (first_page "" null)) ≡ true
Visited-view_example =
    Visited-view browser (show_add_robot_page browser "tests" true (first_page "" null)) (
      visited_next (first_page "" null)
        (show_add_robot_page browser "tests" true (first_page "" null)) (loaded "" null)
        (manages "tests" (first_page "" null)))

fixes_is_tab : contains "fixes" manage_tabs ≡ true
unfolding contains
fixes_is_tab = refl

parse_manage_route-build_example :
    parse_manage_route plain (build_manage_hash plain "fixes") ≡ some (named_tab "fixes")
parse_manage_route-build_example =
    parse_manage_route-build plain "fixes" (λ t tab. refl) fixes_is_tab

-- The backend confirms a parallelism of 20.
abbrev twenty : Value
twenty = obj (field "parallelism" (num (thousandths 20000)) no_fields)

abbrev fired : Parallelism
unfolding fire_timer
fired = fire_timer (at_start 20 8)

abbrev confirmed : Parallelism
unfolding answer_ok
confirmed = answer_ok plain twenty fired

confirms : clamp_fleet_parallelism plain (get twenty "parallelism") ≡ 20
unfolding clamp_fleet_parallelism
confirms = refl

its_syncs : Syncs plain false confirmed
unfolding fired fire_timer confirmed answer_ok
its_syncs =
    synced false fired confirmed
      (synced false (at_start 20 8) fired (started 20 8) (fires (at_start 20 8) refl))
      (answers 20 twenty fired refl confirms)

confirmed_timer : confirmed.sync_timer ≡ false
unfolding fired fire_timer confirmed answer_ok
confirmed_timer = refl

confirmed_free : confirmed.in_flight ≡ none
unfolding fired fire_timer confirmed answer_ok
confirmed_free = refl

Syncs-settled_example : confirmed.monitor_parallelism ≡ confirmed.fleet_parallelism
Syncs-settled_example = Syncs-settled plain confirmed its_syncs confirmed_timer confirmed_free

-- A request for 20 is under way while 30 waits.
abbrev waiting : Parallelism
waiting = record {
  fleet_parallelism = 20;
  monitor_parallelism = 8;
  pending_value = some 30;
  in_flight = some 20;
  sync_timer = true;
}

answer_failed-stale_example :
    (answer_ok plain twenty (fire_timer (answer_failed waiting))).in_flight ≡ some 30
answer_failed-stale_example =
    answer_failed-stale plain twenty 30 waiting refl (λ e. cc) (λ e. cc) confirms

-- A server that answers the method GET only, with everything.
abbrev server : Fetch
server = record { head = λ url. broken; get = λ url. response true 200 }

abbrev model_url : Value
model_url = str "assets/models/LowRes/rover.glb"

resolve_all-once_example : IsCached server (
    resolve_all plain server default_quality_levels
      ((model_url, str "low") ∷ (model_url, str "high") ∷ [])
      new_resolver)
resolve_all-once_example =
    resolve_all-once plain server default_quality_levels
      ((model_url, str "low") ∷ (model_url, str "high") ∷ [])

not_resolved :
    lookup
      (cache_key plain default_quality_levels model_url (str "low"))
      (resolve_all plain server default_quality_levels [] new_resolver).resolve_cache
    ≡ none
unfolding resolve_all lookup
not_resolved = refl

resolve_model_url-expected_example :
    (resolve_model_url plain server default_quality_levels model_url
      (str "low")
      (resolve_all plain server default_quality_levels [] new_resolver)).0
    ≡ expected_url plain server default_quality_levels model_url (str "low")
resolve_model_url-expected_example =
    resolve_model_url-expected plain server default_quality_levels [] model_url (str "low")
      not_resolved

candidates_of-rotation_example :
    (before : List Level) × (after : List Level) × (all_levels default_quality_levels
      ≡ before ++ after)
    × (length before ≡ start_index plain default_quality_levels (str "high"))
    × (start_index plain default_quality_levels (str "high")
        < length (all_levels default_quality_levels))
    × (candidates_of plain default_quality_levels "assets/models/LowRes/rover.glb" (str "high")
        ≡ map
            (λ l.
              build_path_for_quality plain "assets/models/LowRes/rover.glb" l
                (all_levels default_quality_levels))
            (after ++ before))
candidates_of-rotation_example =
    candidates_of-rotation plain default_quality_levels "assets/models/LowRes/rover.glb"
      (str "high")

abbrev asked : String → Binding
asked token = record {
  initial_url = if token === "1" then "old-low.glb" else "new-low.glb";
  resolved_url = if token === "1" then "old-high.glb" else "new-high.glb";
}

abbrev viewer : Viewer
viewer = record { token = ""; src = "" }

Bound-ShowsBinding_example :
    ShowsBinding asked (arrive "1" (asked "1") (bind "2" (asked "2") viewer))
Bound-ShowsBinding_example =
    Bound-ShowsBinding asked (arrive "1" (asked "1") (bind "2" (asked "2") viewer)) (
      next_bound (bind "2" (asked "2") viewer)
        (arrive "1" (asked "1") (bind "2" (asked "2") viewer)) (first_bound "2" viewer (λ e. cc))
        (arrives "1" (bind "2" (asked "2") viewer)))

-- The mode is chosen and applied, and the backend refuses.
abbrev applying : MonitorPage
applying = record first_monitor_page {
  is_apply_in_flight = true;
  status = some ("Applying monitor config...", warn);
}

Monitored-IsLimited_example :
    IsLimited (end_apply plain (config_refused "") applying).config
    × (0 ≡ flag_count (end_apply plain (config_refused "") applying).is_apply_in_flight)
unfolding begin_apply
Monitored-IsLimited_example =
    Monitored-IsLimited plain 0 (end_apply plain (config_refused "") applying)
      (ends 0 applying (config_refused "") (begins 0 first_monitor_page applying first_state refl))
