-- ===== src/ModelAssets/Viewer.antt =====
-- `bindModelViewerSource` of modelAssetResolver.js: the address of a model that is resolved late
-- changes the viewer only if the viewer has not been bound anew. A token stands for one binding,
-- and `asked` says what each token was given.
use robot_maintanance.Prelude.{
  String, false, not, ◌||◌, ◌===◌, if◌then◌else◌, ◌≡◌, ◌≢◌, ◌⊎◌, inl, inr, arith, eq_iff, if-Holds,
}
use mathlib.Core.Path.{ap}
use robot_maintanance.Js.{Value}
use robot_maintanance.Js.Engine.{Engine}
use robot_maintanance.Normalize.{clean, normalize_text}
use robot_maintanance.ModelAssets.{Levels, build_model_quality_candidates}
use robot_maintanance.ModelAssets.Resolving.{first_or}

-- `getInitialModelUrl`
unfoldable pub get_initial_model_url : Engine → Levels → Value → Value → String
unfolding build_model_quality_candidates
get_initial_model_url js levels base_url requested =
    first_or (normalize_text js base_url "")
      (build_model_quality_candidates js levels base_url requested)

-- The token and the source of the viewer
pub record Viewer : Type 0 where
  pub token : String
  pub src : String

-- What a binding sets at once, and what its resolution comes to
pub record Binding : Type 0 where
  pub initial_url : String
  pub resolved_url : String

-- `bindModelViewerSource` up to the resolution
unfoldable pub bind : String → Binding → Viewer → Viewer
bind token b v = record {
  token = token;
  src = if b.initial_url === "" then v.src else b.initial_url;
}

-- The resolution arrives.
unfoldable pub arrive : String → Binding → Viewer → Viewer
arrive token b v =
    let next_url = clean b.resolved_url "" in
    if not (v.token === token) || next_url === "" || v.src === next_url
    then v
    else record v { src = next_url }

pub data ViewerStep (asked : String → Binding) : Viewer → Viewer → Type 0 where
  binds :
      (token : String) (v : Viewer)
      → (asked token).initial_url ≢ ""
      → ViewerStep asked v (bind token (asked token) v)
  arrives : (token : String) (v : Viewer) → ViewerStep asked v (arrive token (asked token) v)

-- The viewers that a binding and any further steps lead to
pub data Bound (asked : String → Binding) : Viewer → Type 0 where
  first_bound :
      (token : String) (v : Viewer)
      → (asked token).initial_url ≢ ""
      → Bound asked (bind token (asked token) v)
  next_bound : (v w : Viewer) → Bound asked v → ViewerStep asked v w → Bound asked w

abbrev pub ShowsBinding : (String → Binding) → Viewer → Type 0
ShowsBinding asked v =
    (v.src ≡ (asked v.token).initial_url) ⊎ (v.src ≡ clean (asked v.token).resolved_url "")

bind-ShowsBinding :
    (asked : String → Binding) (token : String) (v : Viewer)
    → (asked token).initial_url ≢ ""
    → ShowsBinding asked (bind token (asked token) v)
unfolding bind
bind-ShowsBinding asked token v ne = inl (ground (arith, ne, eq_iff (asked token).initial_url ""))

arrive-ShowsBinding :
    (asked : String → Binding) (token : String) (v : Viewer)
    → ShowsBinding asked v
    → ShowsBinding asked (arrive token (asked token) v)
unfolding arrive
arrive-ShowsBinding asked token v h =
    let next_url = clean (asked token).resolved_url "" in
    if-Holds (ShowsBinding asked) (not (v.token === token) || next_url === "" || v.src === next_url)
      v (record v { src = next_url }) (λ ignored. h)
      (λ taken. inr (ap (λ t. clean (asked t).resolved_url "") (same taken)))
  where
    same :
        (not (v.token === token)
            || clean (asked token).resolved_url "" === ""
            || v.src === clean (asked token).resolved_url "")
          ≡ false
        → token ≡ v.token
    same e = ground (arith, e, eq_iff v.token token)

-- In whatever order the resolutions of older and newer bindings arrive: the viewer shows the first
-- or the resolved address of its last binding, where every binding has a first address.
pub Bound-ShowsBinding :
    (asked : String → Binding) (v : Viewer) → Bound asked v → ShowsBinding asked v
Bound-ShowsBinding asked _ (first_bound token v ne) = bind-ShowsBinding asked token v ne
Bound-ShowsBinding asked _ (next_bound v _ before (binds token _ ne)) =
    bind-ShowsBinding asked token v ne
Bound-ShowsBinding asked _ (next_bound v _ before (arrives token _)) =
    arrive-ShowsBinding asked token v (Bound-ShowsBinding asked v before)
