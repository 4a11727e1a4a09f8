-- ===== src/ModelAssets/Once.antt =====
-- What the caches of the resolver come to: no address is probed twice, and the results are those
-- without caches.
use robot_maintanance.Prelude.{
  String, Bool, true, not, ◌&&◌, Option, none, some, List, [], ◌∷◌, find?, ◌===◌, ◌≡◌, refl, arith,
  eq_iff, lookup, insert, has, contains, no_repeats, lookup-insert, has-insert, Bool-cases, inl,
  inr,
}
use robot_maintanance.Js.{Value}
use robot_maintanance.Js.Engine.{Engine}
use robot_maintanance.Normalize.{clean, normalize_text}
use robot_maintanance.ModelAssets.{Levels}
use robot_maintanance.ModelAssets.Resolving.{
  Fetch, Resolver, new_resolver, probe, probe_or_cached, url_exists, first_existing, chosen_url,
  cache_key, candidates, resolve_or_cached, resolve_model_url, resolve_all,
}

-- The cache knows what the probes say, of the addresses that were probed, each once.
pub record IsCached (f : Fetch) (s : Resolver) : Type 0 where
  pub known : (url : String) (b : Bool) → lookup url s.exists_cache ≡ some b → b ≡ probe f url
  pub listed : (url : String) → contains url s.probed ≡ has url s.exists_cache
  pub once : no_repeats s.probed ≡ true

new_resolver-IsCached : (f : Fetch) → IsCached f new_resolver
unfolding lookup has contains no_repeats
new_resolver-IsCached f = record { known = λ url b e. cc; listed = λ url. refl; once = refl }

probed-IsCached :
    (f : Fetch) (url : String) (s : Resolver)
    → lookup url s.exists_cache ≡ none
    → IsCached f s
    → IsCached f (record s {
      exists_cache = insert url (probe f url) s.exists_cache;
      probed = url ∷ s.probed;
    })
unfolding has contains no_repeats
probed-IsCached f url s fresh h = record {
  known = λ other b e. ground (
    arith,
    e,
    eq_iff url other,
    lookup-insert url other (probe f url) s.exists_cache,
    h.known other b,
  );
  listed = λ other.
      ground (
        arith,
        eq_iff url other,
        has-insert url other (probe f url) s.exists_cache,
        h.listed other,
      );
  once = ground (arith, fresh, h.once, h.listed url);
}

probe_or_cached-IsCached :
    (f : Fetch) (url : String) (o : Option Bool) (s : Resolver)
    → lookup url s.exists_cache ≡ o
    → IsCached f s
    → ((probe_or_cached f url o s).0 ≡ probe f url) × IsCached f (probe_or_cached f url o s).1
unfolding probe_or_cached
probe_or_cached-IsCached f url (some b) s e h = (h.known url b e, h)
probe_or_cached-IsCached f url none s e h = (refl, probed-IsCached f url s e h)

-- The address is not blank, and the backend has it.
abbrev pub is_there : Fetch → String → Bool
is_there f url = not (clean url "" === "") && probe f (clean url "")

url_exists-IsCached :
    (f : Fetch) (url : String) (s : Resolver)
    → IsCached f s
    → ((url_exists f url s).0 ≡ is_there f url) × IsCached f (url_exists f url s).1
unfolding url_exists
url_exists-IsCached f url s h = elim (Bool-cases (clean url "" === "")) [
  | inl blank ↦ rw blank (refl, h)
  | inr named ↦
      rw named
        (probe_or_cached-IsCached f (clean url "") (lookup (clean url "") s.exists_cache) s refl h)
]

first_existing-IsCached :
    (f : Fetch) (cs : List String) (s : Resolver)
    → IsCached f s
    → ((first_existing f cs s).0 ≡ find? (is_there f) cs) × IsCached f (first_existing f cs s).1
unfolding first_existing
first_existing-IsCached f [] s h = (refl, h)
first_existing-IsCached f (c ∷ cs) s h =
    let x = url_exists f c s in
    let first = url_exists-IsCached f c s h in
    let rest = first_existing-IsCached f cs x.1 first.1 in
    elim (Bool-cases (is_there f c)) [
      | inl there ↦ rw (first.0, there) (refl, first.1)
      | inr missing ↦ rw (first.0, missing) rest
    ]

-- The result without caches: the first candidate that is there, or else the first one.
abbrev pub expected_url : Engine → Fetch → Levels → Value → Value → String
unfolding candidates
expected_url js f levels base_url requested =
    let cs = candidates js levels base_url requested in
    chosen_url (normalize_text js base_url "") cs (find? (is_there f) cs)

resolve_or_cached-IsCached :
    (js : Engine) (f : Fetch) (levels : Levels) (base_url requested : Value) (o : Option String)
    (s : Resolver)
    → IsCached f s
    → IsCached f (resolve_or_cached js f levels base_url requested o s).1
unfolding resolve_or_cached
resolve_or_cached-IsCached js f levels base_url requested (some known) s h = h
resolve_or_cached-IsCached js f levels base_url requested none s h =
    let x = (first_existing-IsCached f (candidates js levels base_url requested) s h).1 in
    record { known = x.known; listed = x.listed; once = x.once }

resolve_all-IsCached :
    (js : Engine) (f : Fetch) (levels : Levels) (asked : List (Value × Value)) (s : Resolver)
    → IsCached f s
    → IsCached f (resolve_all js f levels asked s)
unfolding resolve_all resolve_model_url
resolve_all-IsCached js f levels [] s h = h
resolve_all-IsCached js f levels ((base_url, requested) ∷ rest) s h =
    resolve_all-IsCached js f levels rest (resolve_model_url js f levels base_url requested s).1 (
      resolve_or_cached-IsCached js f levels base_url requested
        (lookup (cache_key js levels base_url requested) s.resolve_cache) s h)

-- Whatever models a page resolves, one after the other: no address is probed twice, and what the
-- cache says of an address is what its probe has said.
pub resolve_all-once :
    (js : Engine) (f : Fetch) (levels : Levels) (asked : List (Value × Value))
    → IsCached f (resolve_all js f levels asked new_resolver)
resolve_all-once js f levels asked =
    resolve_all-IsCached js f levels asked new_resolver (new_resolver-IsCached f)

-- After any earlier resolutions, an address and quality that are resolved for the first time give
-- the first candidate that is there, or else the first candidate, as a resolver without caches
-- would find it.
pub resolve_model_url-expected :
    (js : Engine) (f : Fetch) (levels : Levels) (asked : List (Value × Value))
    (base_url requested : Value)
    → lookup
        (cache_key js levels base_url requested)
        (resolve_all js f levels asked new_resolver).resolve_cache
      ≡ none
    → (resolve_model_url js f levels base_url requested
        (resolve_all js f levels asked new_resolver)).0
      ≡ expected_url js f levels base_url requested
unfolding resolve_model_url resolve_or_cached
resolve_model_url-expected js f levels asked base_url requested fresh =
    let s = resolve_all js f levels asked new_resolver in
    let cs = candidates js levels base_url requested in
    rw (fresh, (first_existing-IsCached f cs s (resolve_all-once js f levels asked)).0) refl

resolve_or_cached-keeps :
    (js : Engine) (f : Fetch) (levels : Levels) (base_url requested : Value) (o : Option String)
    (s : Resolver)
    → lookup (cache_key js levels base_url requested) s.resolve_cache ≡ o
    → lookup
        (cache_key js levels base_url requested)
        (resolve_or_cached js f levels base_url requested o s).1.resolve_cache
      ≡ some (resolve_or_cached js f levels base_url requested o s).0
unfolding resolve_or_cached
resolve_or_cached-keeps js f levels base_url requested (some known) s e = e
resolve_or_cached-keeps js f levels base_url requested none s e =
    let key = cache_key js levels base_url requested in
    let cs = candidates js levels base_url requested in
    let x = first_existing f cs s in
    let url = chosen_url (normalize_text js base_url "") cs x.0 in
    ground (arith, lookup-insert key key url x.1.resolve_cache, eq_iff key key)

-- The same request made again gives the same address and asks for nothing, in any state of the
-- resolver.
pub resolve_model_url-again :
    (js : Engine) (f : Fetch) (levels : Levels) (base_url requested : Value) (s : Resolver)
    → let first = resolve_model_url js f levels base_url requested s in
      resolve_model_url js f levels base_url requested first.1 ≡ first
unfolding resolve_model_url resolve_or_cached
resolve_model_url-again js f levels base_url requested s =
    let key = cache_key js levels base_url requested in
    rw (resolve_or_cached-keeps js f levels base_url requested (lookup key s.resolve_cache) s refl)
      refl
