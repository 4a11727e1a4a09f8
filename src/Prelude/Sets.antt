-- ===== src/Prelude/Sets.antt =====
-- A `Set` of texts as a list in the order of insertion.
use Prim.Native.String.{String}
use mathlib.Core.Path.{◌≡◌}
use mathlib.Core.Bool.{Bool, not, true, false, ◌||◌, ◌&&◌}
use mathlib.Core.List.{List, [], ◌∷◌}
use native.Mathlib.Omega.{arith}
use text.Mathlib.Text.{◌==◌}
use text.Mathlib.TextEquality.{eq_iff}
use robot_maintanance.Prelude.Tests.{if◌then◌else◌}
use robot_maintanance.Prelude.Lists.{filter}

unfoldable pub contains : String → List String → Bool
contains k [] = false
contains k (j ∷ s) = j == k || contains k s

unfoldable pub no_repeats : List String → Bool
no_repeats [] = true
no_repeats (k ∷ s) = not (contains k s) && no_repeats s

-- `set.add`
unfoldable pub add : String → List String → List String
add k [] = k ∷ []
add k (j ∷ s) = if j == k then j ∷ s else j ∷ add k s

-- `set.delete`
unfoldable pub delete : String → List String → List String
delete k [] = []
delete k (j ∷ s) = if j == k then delete k s else j ∷ delete k s

-- `new Set(list)`
unfoldable pub to_set : List String → List String → List String
to_set s [] = s
to_set s (k ∷ ks) = to_set (add k s) ks

unfoldable pub delete_all : List String → List String → List String
delete_all s [] = s
delete_all s (k ∷ ks) = delete_all (delete k s) ks

pub contains-add :
    (k j : String) (s : List String)
    → contains j (add k s) ≡ (if k == j then true else contains j s)
unfolding contains add
contains-add k j [] = ground (arith, eq_iff k j)
contains-add k j (i ∷ s) = ground (arith, eq_iff k j, eq_iff i k, eq_iff i j, contains-add k j s)

pub contains-delete :
    (k j : String) (s : List String)
    → contains j (delete k s) ≡ (if k == j then false else contains j s)
unfolding contains delete
contains-delete k j [] = ground (arith, eq_iff k j)
contains-delete k j (i ∷ s) =
    ground (arith, eq_iff k j, eq_iff i k, eq_iff i j, contains-delete k j s)

pub contains-to_set :
    (j : String) (s ks : List String) → contains j (to_set s ks) ≡ (contains j s || contains j ks)
unfolding contains to_set
contains-to_set j s [] = ground arith
contains-to_set j s (k ∷ ks) = ground (arith, contains-to_set j (add k s) ks, contains-add k j s)

pub contains-delete_all :
    (j : String) (s ks : List String)
    → contains j (delete_all s ks) ≡ (if contains j ks then false else contains j s)
unfolding contains delete_all
contains-delete_all j s [] = ground arith
contains-delete_all j s (k ∷ ks) =
    ground (arith, contains-delete_all j (delete k s) ks, contains-delete k j s)

pub contains-filter :
    (p : String → Bool) (j : String) (s : List String)
    → contains j (filter p s) ≡ (contains j s && p j)
unfolding contains
contains-filter p j [] = ground arith
contains-filter p j (i ∷ s) = ground (arith, eq_iff i j, contains-filter p j s)
