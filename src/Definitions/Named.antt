-- ===== src/Definitions/Named.antt =====
-- The ids of the configured definitions (dashboardRuntimeMonitorConfig.js).
use robot_maintanance.Prelude.{
  String, false, not, List, [], ◌∷◌, Option, none, some, map, present, All, ◌≡◌, ◌≢◌, arith, eq_iff,
  ◌===◌, if-Holds, is_empty, refl, ◌||◌, filter,
}
use robot_maintanance.Js.{Value, array_or_empty, get, is_object}
use robot_maintanance.Js.Engine.{Engine}
use robot_maintanance.Normalize.{normalize_text}
use robot_maintanance.Definitions.{
  RobotType, normalize_test_definition, normalize_auto_fix_definition, normalize_robot_type,
  normalize_robot_type_config, text_list, set_robot_type_definitions,
  get_robot_definitions_for_type, get_robot_type_config, own_or_default, config_entries,
}

-- What is there satisfies the statement.
abbrev IfSome {ℓ κ} : {A : Type ℓ} → (A → Type κ) → Option A → Type κ
IfSome P none = Unit
IfSome P (some x) = P x

All-present {ℓ κ} :
    {A : Type ℓ} (P : A → Type κ) (o : Option A) (os : List (Option A))
    → IfSome P o
    → All P (present os)
    → All P (present (o ∷ os))
All-present P none os h hs = hs
All-present P (some x) os h hs = (h, hs)

All-present-map {ℓ ι κ} :
    {A : Type ℓ} {B : Type ι} (P : B → Type κ) (f : A → Option B) (xs : List A)
    → ((x : A) → IfSome P (f x))
    → All P (present (map f xs))
All-present-map P f [] h = tt
All-present-map P f (x ∷ xs) h = All-present P (f x) _ (h x) (All-present-map P f xs h)

-- Every id of the type is a text that is not empty.
pub record IsNamed (t : RobotType) : Type 0 where
  pub type_id_named : t.type_id ≢ ""
  pub topics_named : All (λ s. s ≢ "") t.topics
  pub tests_named : All (λ d. d.id ≢ "") t.tests
  pub fixes_named : All (λ f. (f.id ≢ "") × All (λ s. s ≢ "") f.post_test_ids) t.auto_fixes

text_list-named : (js : Engine) (v : Value) → All (λ s. s ≢ "") (text_list js v)
text_list-named js v = named (map (λ item. normalize_text js item "") (array_or_empty v))
  where
    named : (ss : List String) → All (λ s. s ≢ "") (filter (λ s. not (s === "")) ss)
    named [] = tt
    named (s ∷ ss) = ground (arith, eq_iff s "", named ss)

test_definition-named :
    (js : Engine) (raw : Value) → IfSome (λ d. d.id ≢ "") (normalize_test_definition js raw)
unfolding normalize_test_definition
test_definition-named js raw =
    if-Holds (IfSome (λ d. d.id ≢ ""))
      (not (is_object raw) || normalize_text js (get raw "id") "" === "") _ _ (λ e. tt)
      (λ e. ground (arith, eq_iff (normalize_text js (get raw "id") "") ""))

auto_fix-named :
    (js : Engine) (raw : Value)
    → IfSome
        (λ f. (f.id ≢ "") × All (λ s. s ≢ "") f.post_test_ids)
        (normalize_auto_fix_definition js raw)
unfolding normalize_auto_fix_definition
auto_fix-named js raw =
    let id = normalize_text js (get raw "id") "" in
    if-Holds (IfSome (λ f. (f.id ≢ "") × All (λ s. s ≢ "") f.post_test_ids))
      (not (is_object raw) || id === "") _ _ (λ e. tt)
      (λ e. (ground (arith, eq_iff id ""), text_list-named js (get raw "postTestIds")))

robot_type-named : (js : Engine) (entry : Value) → IfSome IsNamed (normalize_robot_type js entry)
unfolding normalize_robot_type
robot_type-named js entry =
    let name = normalize_text js (get entry "name") "" in
    let id = normalize_text js (get entry "typeId") (normalize_text js (get entry "id") name) in
    if-Holds (IfSome IsNamed) (not (is_object entry) || id === "") _ _ (λ e. tt)
      (λ e. record {
        type_id_named = ground (arith, eq_iff id "");
        topics_named = text_list-named js (get entry "topics");
        tests_named =
            All-present-map (λ d. d.id ≢ "") (normalize_test_definition js)
              (array_or_empty (get entry "tests")) (test_definition-named js);
        fixes_named =
            All-present-map (λ f. (f.id ≢ "") × All (λ s. s ≢ "") f.post_test_ids)
              (normalize_auto_fix_definition js) (array_or_empty (get entry "autoFixes"))
              (auto_fix-named js);
      })

-- Whatever the payload is, every robot type that is kept, every test, topic and automatic fix of it
-- and every test after a fix has an id that is not empty.
pub normalize_robot_type_config-named :
    (js : Engine) (payload : Value) → All IsNamed (normalize_robot_type_config js payload)
unfolding normalize_robot_type_config
normalize_robot_type_config-named js payload =
    All-present-map IsNamed (normalize_robot_type js) (config_entries payload) (robot_type-named js)

own_or_default-nonempty : (o : Option RobotType) → is_empty (own_or_default o) ≡ false
own_or_default-nonempty none = refl
own_or_default-nonempty (some t) = ground arith

-- Whatever the payload is, a robot of any type has at least one test definition.
pub get_robot_definitions_for_type-nonempty :
    (js : Engine) (payload type_id : Value)
    → is_empty (get_robot_definitions_for_type js (set_robot_type_definitions js payload) type_id)
      ≡ false
unfolding get_robot_definitions_for_type
get_robot_definitions_for_type-nonempty js payload type_id =
    own_or_default-nonempty
      (get_robot_type_config js (set_robot_type_definitions js payload) type_id)
