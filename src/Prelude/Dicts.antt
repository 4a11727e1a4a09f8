-- ===== src/Prelude/Dicts.antt =====
-- A `Map` or a plain object as an association list, in the order of insertion.
use Prim.Native.String.{String}
use mathlib.Core.Path.{◌≡◌, refl}
use mathlib.Core.Bool.{Bool, true, false, not}
use mathlib.Core.Option.{Option, none, some}
use mathlib.Core.List.{List, [], ◌∷◌}
use native.Mathlib.Omega.{arith}
use text.Mathlib.Text.{◌==◌}
use text.Mathlib.TextEquality.{eq_iff}
use text.Mathlib.TextPositions.{eq_refl}
use robot_maintanance.Prelude.Tests.{if◌then◌else◌}
use robot_maintanance.Prelude.Lists.{is_empty}

abbrev pub Dict {ℓ} : Type ℓ → Type ℓ
Dict V = List (String × V)

module _ {ℓ} {V : Type ℓ} where
  unfoldable pub lookup : String → Dict V → Option V
  lookup name [] = none
  lookup name ((key, value) ∷ rest) = if key == name then some value else lookup name rest

  -- An existing key keeps its place, a new one goes last.
  unfoldable pub insert : String → V → Dict V → Dict V
  insert name x [] = (name, x) ∷ []
  insert name x ((key, value) ∷ rest) =
      if not (key == name) then (key, value) ∷ insert name x rest else (name, x) ∷ rest

  unfoldable pub erase : String → Dict V → Dict V
  erase name [] = []
  erase name ((key, value) ∷ rest) =
      if key == name then erase name rest else (key, value) ∷ erase name rest

  unfoldable pub has : String → Dict V → Bool
  unfolding lookup
  has name d = elim (lookup name d) [ none ↦ false | some x ↦ true ]

  -- `{ ...d, ...e }`
  unfoldable pub spread : Dict V → Dict V → Dict V
  spread d [] = d
  spread d ((key, value) ∷ rest) = spread (insert key value d) rest

  abbrev pub keys : Dict V → List String
  keys [] = []
  keys ((key, value) ∷ rest) = key ∷ keys rest

  pub lookup-insert :
      (name other : String) (x : V) (d : Dict V)
      → lookup other (insert name x d) ≡ (if name == other then some x else lookup other d)
  unfolding lookup insert
  lookup-insert name other x [] = refl
  lookup-insert name other x ((key, value) ∷ rest) =
      let ih = lookup-insert name other x rest in
      ground (arith, ih, eq_iff key other, eq_iff key name, eq_iff name other)

  pub lookup-erase :
      (name other : String) (d : Dict V)
      → lookup other (erase name d) ≡ (if name == other then none else lookup other d)
  unfolding lookup erase
  lookup-erase name other [] = ground arith
  lookup-erase name other ((key, value) ∷ rest) =
      let ih = lookup-erase name other rest in
      ground (arith, ih, eq_iff key other, eq_iff key name, eq_iff name other)

  pub has-insert :
      (name other : String) (x : V) (d : Dict V)
      → has other (insert name x d) ≡ (if name == other then true else has other d)
  unfolding has
  has-insert name other x d = ground (arith, lookup-insert name other x d)

  pub has-erase :
      (name other : String) (d : Dict V)
      → has other (erase name d) ≡ (if name == other then false else has other d)
  unfolding has
  has-erase name other d = ground (arith, lookup-erase name other d)

  pub is_empty-insert : (name : String) (x : V) (d : Dict V) → is_empty (insert name x d) ≡ false
  unfolding insert
  is_empty-insert name x [] = refl
  is_empty-insert name x ((key, value) ∷ rest) = ground arith

  pub is_empty-erase :
      (name : String) (d : Dict V) → is_empty d ≡ true → is_empty (erase name d) ≡ true
  unfolding erase
  is_empty-erase name [] e = refl
  is_empty-erase name ((key, value) ∷ rest) e = cc

  pub erase-insert :
      (name : String) (x : V) (d : Dict V) → erase name (insert name x d) ≡ erase name d
  unfolding erase insert
  erase-insert name x [] = simp eq_refl
  erase-insert name x ((key, value) ∷ rest) =
      ground (arith, eq_iff key name, eq_iff name name, erase-insert name x rest)
