-- ===== src/ModelAssets/Resolving.antt =====
-- The resolver with its two caches: `urlExists` and `resolveModelUrl` of modelAssetResolver.js. A
-- probe that is under way stands in the cache like its outcome, so that probes are not repeated.
use robot_maintanance.Prelude.{
  ℕ, String, Bool, true, false, not, ◌&&◌, Option, none, some, List, [], ◌∷◌, if◌then◌else◌, ◌===◌,
  ◌==◌, Dict, lookup, insert,
}
use robot_maintanance.Js.{Value, str, template}
use robot_maintanance.Js.Engine.{Engine}
use robot_maintanance.Normalize.{clean, normalize_text}
use robot_maintanance.ModelAssets.{Levels, build_model_quality_candidates}

-- How a request ends: with a response, whether it is good and its status, or with an exception.
pub data Reply : Type 0 where
  response : Bool → ℕ → Reply
  broken : Reply

-- What the two methods answer for an address
pub record Fetch : Type 0 where
  pub head : String → Reply
  pub get : String → Reply

-- The caches, and the addresses that were asked for with the method HEAD, the last one first.
pub record Resolver : Type 0 where
  pub exists_cache : Dict Bool
  pub resolve_cache : Dict String
  pub probed : List String

abbrev pub new_resolver : Resolver
new_resolver = record { exists_cache = []; resolve_cache = []; probed = [] }

abbrev got : Reply → Bool
got (response ok status) = ok
got broken = false

abbrev probe_by : Reply → Reply → Bool
probe_by broken second = got second
probe_by (response true status) second = true
probe_by (response false status) second =
    if not (status == 0) && not (status == 405) && not (status == 501) then false else got second

-- `probePromise`
unfoldable pub probe : Fetch → String → Bool
probe f url = probe_by (f.head url) (f.get url)

unfoldable pub probe_or_cached : Fetch → String → Option Bool → Resolver → Bool × Resolver
unfolding probe
probe_or_cached f url (some known) s = (known, s)
probe_or_cached f url none s = (
  probe f url,
  record s { exists_cache = insert url (probe f url) s.exists_cache; probed = url ∷ s.probed },
)

-- `urlExists`, of a resolver that can fetch
unfoldable pub url_exists : Fetch → String → Resolver → Bool × Resolver
unfolding probe_or_cached lookup
url_exists f url s =
    let normalized = clean url "" in
    if normalized === ""
    then (false, s)
    else probe_or_cached f normalized (lookup normalized s.exists_cache) s

-- The loop over the candidates
unfoldable pub first_existing : Fetch → List String → Resolver → Option String × Resolver
unfolding url_exists
first_existing f [] s = (none, s)
first_existing f (c ∷ cs) s =
    let x = url_exists f c s in
    let rest = first_existing f cs x.1 in if x.0 then (some c, x.1) else rest

-- `candidates[0] || normalizedBaseUrl`
abbrev pub first_or : String → List String → String
first_or base [] = base
first_or base (c ∷ cs) = if c === "" then base else c

abbrev pub chosen_url : String → List String → Option String → String
chosen_url base candidates none = first_or base candidates
chosen_url base candidates (some c) = c

abbrev pub cache_key : Engine → Levels → Value → Value → String
cache_key js levels base_url requested = template (
    js.lower (normalize_text js requested levels.first.id)
    ∷ "::"
    ∷ normalize_text js base_url ""
    ∷ [])

-- The candidates of `resolveModelUrl`
unfoldable pub candidates : Engine → Levels → Value → Value → List String
unfolding build_model_quality_candidates
candidates js levels base_url requested =
    build_model_quality_candidates js levels (str (normalize_text js base_url ""))
      (str (js.lower (normalize_text js requested levels.first.id)))

unfoldable pub resolve_or_cached :
    Engine → Fetch → Levels → Value → Value → Option String → Resolver → String × Resolver
unfolding first_existing candidates insert
resolve_or_cached js f levels base_url requested (some known) s = (known, s)
resolve_or_cached js f levels base_url requested none s =
    let cs = candidates js levels base_url requested in
    let x = first_existing f cs s in
    let url = chosen_url (normalize_text js base_url "") cs x.0 in
    (
      url,
      record x.1 {
        resolve_cache = insert (cache_key js levels base_url requested) url x.1.resolve_cache;
      },
    )

-- `resolveModelUrl`
unfoldable pub resolve_model_url :
    Engine → Fetch → Levels → Value → Value → Resolver → String × Resolver
unfolding resolve_or_cached
resolve_model_url js f levels base_url requested s =
    resolve_or_cached js f levels base_url requested
      (lookup (cache_key js levels base_url requested) s.resolve_cache) s

-- The resolutions of a page, one after the other
unfoldable pub resolve_all : Engine → Fetch → Levels → List (Value × Value) → Resolver → Resolver
unfolding resolve_model_url
resolve_all js f levels [] s = s
resolve_all js f levels ((base_url, requested) ∷ rest) s =
    resolve_all js f levels rest (resolve_model_url js f levels base_url requested s).1
