-- ===== src/Routes/RoundTrip.antt =====
-- An address leads back to the view that wrote it.
use robot_maintanance.Prelude.{
  String, true, some, [], ◌∷◌, ◌≡◌, ◌⊎◌, inl, inr, refl, arith, eq_iff, contains, ◌===◌,
  if◌then◌else◌,
}
use robot_maintanance.Js.{str, trim, template, starts_with, slice, without_hash}
use robot_maintanance.Js.Engine.{Engine, text_of}
use robot_maintanance.Normalize.{clean, normalize_text}
use robot_maintanance.Routes.{
  manage_tabs, normalize_manage_tab, build_manage_hash, parse_manage_route, or_text,
}

-- The engine lowers the texts of the tabs to themselves.
abbrev pub KeepsTabs : Engine → Type 0
KeepsTabs js = (t : String) → contains t manage_tabs ≡ true → js.lower t ≡ t

-- The tab that an address gives back for a tab: none for the first one, whose address names no tab.
abbrev pub named_tab : String → String
named_tab t = if t === "robots" then "" else t

is_tab :
    (t : String)
    → contains t manage_tabs ≡ true
    → (t ≡ "robots") ⊎ ((t ≡ "tests") ⊎ ((t ≡ "fixes") ⊎ (t ≡ "recorder")))
unfolding contains
is_tab t h =
    ground (arith, h, eq_iff "robots" t, eq_iff "tests" t, eq_iff "fixes" t, eq_iff "recorder" t)

clean-tab : (t : String) → contains t manage_tabs ≡ true → clean t "" ≡ t
unfolding clean trim
clean-tab t h = elim (is_tab t h) [
  | inl e ↦ rw e refl
  | inr (inl e) ↦ rw e refl
  | inr (inr (inl e)) ↦ rw e refl
  | inr (inr (inr e)) ↦ rw e refl
]

pub normalize_manage_tab-tab :
    (js : Engine) (t : String)
    → KeepsTabs js
    → contains t manage_tabs ≡ true
    → normalize_manage_tab js (str t) ≡ t
unfolding normalize_manage_tab normalize_text text_of
normalize_manage_tab-tab js t k h = ground (arith, clean-tab t h, k t h, h)

or_text-tab : (t : String) → contains t manage_tabs ≡ true → or_text t "robots" ≡ t
or_text-tab t h = elim (is_tab t h) [
  | inl e ↦ rw e refl
  | inr (inl e) ↦ rw e refl
  | inr (inr (inl e)) ↦ rw e refl
  | inr (inr (inr e)) ↦ rw e refl
]

-- The address of a tab, in full.
abbrev pub hash_of : String → String
hash_of t = if t === "robots" then "manage-robots" else template ("manage-robots" ∷ "/" ∷ t ∷ [])

build_manage_hash-tab :
    (js : Engine) (t : String)
    → KeepsTabs js
    → contains t manage_tabs ≡ true
    → build_manage_hash js t ≡ hash_of t
unfolding build_manage_hash
build_manage_hash-tab js t k h = rw (normalize_manage_tab-tab js t k h) (rw (or_text-tab t h) refl)

-- What the address of a tab says about the route
route-hash :
    (js : Engine) (t : String)
    → KeepsTabs js
    → contains t manage_tabs ≡ true
    → parse_manage_route js (hash_of t) ≡ some (named_tab t)
unfolding parse_manage_route clean trim without_hash starts_with slice template contains
route-hash js t k h = elim (is_tab t h) [
  | inl e ↦ rw e refl
  | inr (inl e) ↦ rw e (rw (normalize_manage_tab-tab js "tests" k refl) refl)
  | inr (inr (inl e)) ↦ rw e (rw (normalize_manage_tab-tab js "fixes" k refl) refl)
  | inr (inr (inr e)) ↦ rw e (rw (normalize_manage_tab-tab js "recorder" k refl) refl)
]

-- The address that is written for a tab of the management page is read as a route of that page
-- with this tab, where the first tab is read as no particular one, for an engine that lowers the
-- texts of the tabs to themselves.
pub parse_manage_route-build :
    (js : Engine) (t : String)
    → KeepsTabs js
    → contains t manage_tabs ≡ true
    → parse_manage_route js (build_manage_hash js t) ≡ some (named_tab t)
parse_manage_route-build js t k h = rw (build_manage_hash-tab js t k h) (route-hash js t k h)
