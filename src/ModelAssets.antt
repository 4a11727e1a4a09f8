-- ===== src/ModelAssets.antt =====
-- assets/js/modules/dashboard/primitives/model-viewer/modelAssetResolver.js. The answers of
-- `fetch` are an argument: the resolver asks for an address at most once with each method, so that
-- they are a function of the two.
pub mod Paths
pub mod Rotation
pub mod Resolving
pub mod Once
pub mod Viewer
use robot_maintanance.Prelude.{
  ℕ, suc, ◌+◌, ◌%◌, String, Bool, true, false, not, ◌&&◌, ◌||◌, Option, none, some, List, [], ◌∷◌,
  ◌++◌, map, any, filter, present, is_empty, length, if◌then◌else◌, ◌===◌, Dict, lookup, insert,
  has,
}
use robot_maintanance.Js.{Value, str, get, is_object, is_array, array_or_empty, template}
use robot_maintanance.Js.Engine.{Engine}
use robot_maintanance.Normalize.{clean, normalize_text}
use robot_maintanance.ModelAssets.Paths.{without_dot, path_of, suffix_of, models_match, split_slash}

pub record Level : Type 0 where
  pub id : String
  pub folder : String

-- A list of levels that is not empty: the first one and the others.
pub record Levels : Type 0 where
  pub first : Level
  pub others : List Level

abbrev pub level : String → String → Level
level id folder = record { id = id; folder = folder }

-- DEFAULT_QUALITY_LEVELS
abbrev pub default_quality_levels : Levels
default_quality_levels = record {
  first = level "low" "LowRes";
  others = level "high" "HighRes" ∷ [];
}

abbrev pub all_levels : Levels → List Level
all_levels q = q.first ∷ q.others

abbrev normalize_level : Engine → Value → Option Level
normalize_level js entry =
    let id = js.lower (normalize_text js (get entry "id") "") in
    let folder = normalize_text js (get entry "folder") "" in
    if not (is_object entry) || id === "" || folder === "" then none else some (level id folder)

abbrev or_default : List Level → Levels
or_default [] = default_quality_levels
or_default (l ∷ ls) = record { first = l; others = ls }

-- `normalizeQualityLevels`
unfoldable pub normalize_quality_levels : Engine → Value → Levels
normalize_quality_levels js levels =
    or_default (present (map (normalize_level js) (array_or_empty levels)))

-- `buildQualityLookup`, from an index on
unfoldable pub build_quality_lookup : Engine → ℕ → List Level → Dict ℕ → Dict ℕ
build_quality_lookup js index [] d = d
build_quality_lookup js index (l ∷ ls) d =
    build_quality_lookup js (index + 1) ls
      (insert (js.lower l.folder) index (insert (js.lower l.id) index d))

-- `join('/')`
unfoldable pub join_slash : List String → String
join_slash [] = ""
join_slash (s ∷ []) = s
join_slash (s ∷ t ∷ rest) = template (s ∷ "/" ∷ join_slash (t ∷ rest) ∷ [])

abbrev pub segments : String → List String
segments s = let x = split_slash s in filter (λ p. not (p === "")) (x.0 ∷ x.1)

abbrev without_level : Engine → List Level → List String → List String
without_level js levels [] = []
without_level js levels (first ∷ rest) =
    if any (λ l. js.lower l.id === js.lower first || js.lower l.folder === js.lower first) levels
    then rest
    else first ∷ rest

-- `stripKnownQualityFolder`
unfoldable pub strip_known_quality_folder : Engine → String → List Level → String
unfolding join_slash split_slash
strip_known_quality_folder js relative levels =
    join_slash (without_level js levels (segments relative))

abbrev pub path_in_models :
    Engine → Level → List Level → String → String → Option (String × String) → String
unfolding strip_known_quality_folder
path_in_models js l levels path suffix none = template (path ∷ suffix ∷ [])
path_in_models js l levels path suffix (some (prefix, rest)) =
    let relative = strip_known_quality_folder js (clean rest "") levels in
    if relative === ""
    then template (path ∷ suffix ∷ [])
    else template (clean prefix "" ∷ l.folder ∷ "/" ∷ relative ∷ suffix ∷ [])

-- `buildPathForQuality`, with `splitPathSuffix`
unfoldable pub build_path_for_quality : Engine → String → Level → List Level → String
unfolding without_dot path_of suffix_of models_match path_in_models
build_path_for_quality js base_url l levels =
    let raw = without_dot (clean base_url "") in
    path_in_models js l levels (path_of raw) (suffix_of raw) (models_match (path_of raw))

abbrev pub nth : Level → List Level → ℕ → Level
nth d [] n = d
nth d (l ∷ ls) ℕ.zero = l
nth d (l ∷ ls) (ℕ.suc n) = nth d ls n

abbrev pub level_at : Levels → ℕ → Level
level_at q n = nth q.first (all_levels q) n

-- The loop over the offsets, from one on, for as many as are left
unfoldable pub rotate : Levels → ℕ → ℕ → ℕ → List Level
rotate q start offset ℕ.zero = []
rotate q start offset (ℕ.suc left) =
    level_at q ((start + offset) % length (all_levels q)) ∷ rotate q start (offset + 1) left

abbrev pub requested_level : Engine → Levels → Value → String
requested_level js q requested = js.lower (normalize_text js requested q.first.id)

abbrev pub index_or_zero : Option ℕ → ℕ
index_or_zero none = 0
index_or_zero (some n) = n

unfoldable pub start_index : Engine → Levels → Value → ℕ
unfolding build_quality_lookup
start_index js q requested =
    index_or_zero
      (lookup (requested_level js q requested) (build_quality_lookup js 0 (all_levels q) []))

abbrev normalize_again : Engine → Level → Option Level
normalize_again js l =
    let id = js.lower (clean l.id "") in
    let folder = clean l.folder "" in
    if id === "" || folder === "" then none else some (level id folder)

-- The levels that `buildModelQualityCandidates` is given are normalised once more.
abbrev pub levels_again : Engine → Levels → Levels
levels_again js q = or_default (present (map (normalize_again js) (all_levels q)))

unfoldable pub candidates_of : Engine → Levels → String → Value → List String
unfolding build_path_for_quality start_index rotate
candidates_of js q base requested =
    map (λ l. build_path_for_quality js base l (all_levels q))
      (rotate q (start_index js q requested) 0 (length (all_levels q)))

-- `buildModelQualityCandidates`
unfoldable pub build_model_quality_candidates : Engine → Levels → Value → Value → List String
unfolding candidates_of
build_model_quality_candidates js levels base_url requested =
    let base = normalize_text js base_url "" in
    if base === "" then [] else candidates_of js (levels_again js levels) base requested
