-- ===== src/ModelAssets/Rotation.antt =====
-- The candidates of a model are its levels, once each, from the requested one on.
use native.Mathlib.Nat.{zero-add, suc-add, mod-eq_of_lt, add-mod_left}
use robot_maintanance.Prelude.{
  ℕ, suc, ◌+◌, ◌%◌, ◌≤◌, ◌<◌, String, List, [], ◌∷◌, ◌++◌, map, length, Option, none, some, ◌≡◌,
  refl, sym, ◌∙◌, arith, Dict, lookup, insert, lookup-insert, ◌-◌,
}
use mathlib.Core.Path.{ap}
use robot_maintanance.Js.{Value}
use robot_maintanance.Js.Engine.{Engine}
use robot_maintanance.ModelAssets.{
  Level, Levels, all_levels, nth, level_at, rotate, build_quality_lookup, start_index,
  index_or_zero, requested_level, candidates_of, build_path_for_quality,
}

-- The levels from an index on, as many as are asked for
abbrev stretch : Level → List Level → ℕ → ℕ → List Level
stretch d ls j ℕ.zero = []
stretch d ls j (ℕ.suc k) = nth d ls j ∷ stretch d ls (suc j) k

stretch-suc :
    (d l : Level) (ls : List Level) (j k : ℕ) → stretch d (l ∷ ls) (suc j) k ≡ stretch d ls j k
stretch-suc d l ls j ℕ.zero = refl
stretch-suc d l ls j (ℕ.suc k) = ap (λ r. nth d ls j ∷ r) (stretch-suc d l ls (suc j) k)

stretch-all : (d : Level) (ls : List Level) → stretch d ls 0 (length ls) ≡ ls
stretch-all d [] = refl
stretch-all d (l ∷ ls) = ap (λ r. l ∷ r) (stretch-suc d l ls 0 (length ls) ∙ stretch-all d ls)

stretch-add :
    (d : Level) (ls : List Level) (j k m : ℕ)
    → stretch d ls j (k + m) ≡ stretch d ls j k ++ stretch d ls (j + k) m
stretch-add d ls j ℕ.zero m = rw zero-add (shifted j (omega arith))
  where
    shifted : (i : ℕ) → i ≡ j + 0 → stretch d ls i m ≡ stretch d ls (j + 0) m
    shifted i e = ap (λ x. stretch d ls x m) e
stretch-add d ls j (ℕ.suc k) m = rw suc-add (
    ap (λ r. nth d ls j ∷ r)
      (stretch-add d ls (suc j) k m
        ∙ ap (λ x. stretch d ls (suc j) k ++ stretch d ls x m) (next j k)))
  where
    next : (a b : ℕ) → suc a + b ≡ a + suc b
    next a b = omega arith

length-stretch : (d : Level) (ls : List Level) (j k : ℕ) → length (stretch d ls j k) ≡ k
length-stretch d ls j ℕ.zero = refl
length-stretch d ls j (ℕ.suc k) = ap suc (length-stretch d ls (suc j) k)

rotate-low :
    (q : Levels) (start offset left : ℕ)
    → start + offset + left ≤ length (all_levels q)
    → rotate q start offset left ≡ stretch q.first (all_levels q) (start + offset) left
unfolding rotate
rotate-low q start offset ℕ.zero h = refl
rotate-low q start offset (ℕ.suc left) h =
    let e : start + (offset + 1) ≡ suc (start + offset) = omega arith in
    let small : start + offset < length (all_levels q) = omega (arith, h) in
    rw (mod-eq_of_lt small) (
      ap (λ r. level_at q (start + offset) ∷ r)
        (rotate-low q start (offset + 1) left (omega (arith, h))
          ∙ ap (λ x. stretch q.first (all_levels q) x left) e))

rotate-high :
    (q : Levels) (start offset j left : ℕ)
    → start + offset ≡ length (all_levels q) + j
    → j + left ≤ length (all_levels q)
    → rotate q start offset left ≡ stretch q.first (all_levels q) j left
unfolding rotate
rotate-high q start offset j ℕ.zero e h = refl
rotate-high q start offset j (ℕ.suc left) e h =
    let small : j < length (all_levels q) = omega (arith, h) in
    let wraps =
      ap (λ x. x % length (all_levels q)) e
      ∙ add-mod_left (length (all_levels q)) j
      ∙ mod-eq_of_lt small in
    rw wraps (
      ap (λ r. level_at q j ∷ r)
        (rotate-high q start (offset + 1) (suc j) left (omega (arith, e)) (omega (arith, h))))

rotate-add :
    (q : Levels) (start offset k m : ℕ)
    → rotate q start offset (k + m) ≡ rotate q start offset k ++ rotate q start (offset + k) m
unfolding rotate
rotate-add q start offset ℕ.zero m = rw zero-add (ap (λ x. rotate q start x m) (kept offset))
  where
    kept : (a : ℕ) → a ≡ a + 0
    kept a = omega arith
rotate-add q start offset (ℕ.suc k) m = rw suc-add (
    ap (λ r. level_at q ((start + offset) % length (all_levels q)) ∷ r)
      (rotate-add q start (offset + 1) k m
        ∙ ap (λ x. rotate q start (offset + 1) k ++ rotate q start x m) (next offset k)))
  where
    next : (a b : ℕ) → a + 1 + b ≡ a + suc b
    next a b = omega arith

-- A rotation of the levels by fewer than there are
rotate-levels :
    (q : Levels) (start rest : ℕ)
    → start + rest ≡ length (all_levels q)
    → rotate q start 0 (length (all_levels q))
      ≡ stretch q.first (all_levels q) start rest ++ stretch q.first (all_levels q) 0 start
rotate-levels q start rest e =
    let n = length (all_levels q) in
    let turned : n ≡ rest + start = omega (arith, e) in
    let none_yet : start + 0 ≡ start = omega arith in
    let low = rotate-low q start 0 rest (omega (arith, e)) in
    let high = rotate-high q start (0 + rest) 0 start (omega (arith, e)) (omega (arith, e)) in
    ap (λ x. rotate q start 0 x) turned
    ∙ rotate-add q start 0 rest start
    ∙ ap (λ x. x ++ rotate q start (0 + rest) start)
        (low ∙ ap (λ x. stretch q.first (all_levels q) x rest) none_yet)
    ∙ ap (λ x. stretch q.first (all_levels q) start rest ++ x) high

levels-split :
    (q : Levels) (start rest : ℕ)
    → start + rest ≡ length (all_levels q)
    → all_levels q
      ≡ stretch q.first (all_levels q) 0 start ++ stretch q.first (all_levels q) start rest
levels-split q start rest e =
    let ls = all_levels q in
    sym (stretch-all q.first ls)
    ∙ ap (λ x. stretch q.first ls 0 x) (sym e)
    ∙ stretch-add q.first ls 0 start rest
    ∙ ap (λ x. stretch q.first ls 0 start ++ stretch q.first ls x rest) (zero-add start)

-- The indices of the lookup are those of levels.
build_quality_lookup-bound :
    (js : Engine) (index : ℕ) (ls : List Level) (d : Dict ℕ)
    → ((k : String) (v : ℕ) → lookup k d ≡ some v → v < index)
    → (k : String) (v : ℕ) → lookup k (build_quality_lookup js index ls d) ≡ some v
    → v < index + length ls
unfolding build_quality_lookup
build_quality_lookup-bound js index [] d h k v e = omega (arith, h k v e)
build_quality_lookup-bound js index (l ∷ ls) d h k v e =
    let inner = insert (js.lower l.id) index d in
    let known : (i : String) (w : ℕ)
        → lookup i (insert (js.lower l.folder) index inner) ≡ some w
        → w < index + 1 =
      λ i w f. ground (
        arith,
        f,
        lookup-insert (js.lower l.folder) i index inner,
        lookup-insert (js.lower l.id) i index d,
        h i w,
      ) in
    omega (
      arith,
      build_quality_lookup-bound js (index + 1) ls (insert (js.lower l.folder) index inner) known k
          v e,
    )

index_or_zero-bound :
    (o : Option ℕ) (n : ℕ) → 0 < n → ((v : ℕ) → o ≡ some v → v < n) → index_or_zero o < n
index_or_zero-bound none n pos h = pos
index_or_zero-bound (some v) n pos h = h v refl

start_index-bound :
    (js : Engine) (q : Levels) (requested : Value)
    → start_index js q requested < length (all_levels q)
unfolding start_index lookup
start_index-bound js q requested =
    let wanted = requested_level js q requested in
    let table = build_quality_lookup js 0 (all_levels q) [] in
    index_or_zero-bound (lookup wanted table) (length (all_levels q)) (omega arith) (λ v e.
      omega (arith, build_quality_lookup-bound js 0 (all_levels q) [] (λ i w f. cc) wanted v e))

-- The candidates are the levels in two parts, the second part first, each level as its address:
-- they begin with the level that the lookup gives for the requested quality, and each level occurs
-- once.
pub candidates_of-rotation :
    (js : Engine) (q : Levels) (base : String) (requested : Value)
    → (before : List Level) × (after : List Level) × (all_levels q ≡ before ++ after)
      × (length before ≡ start_index js q requested)
      × (start_index js q requested < length (all_levels q))
      × (candidates_of js q base requested
          ≡ map (λ l. build_path_for_quality js base l (all_levels q)) (after ++ before))
unfolding candidates_of
candidates_of-rotation js q base requested =
    let start = start_index js q requested in
    let ls = all_levels q in
    let small = start_index-bound js q requested in
    let rest = length ls - start in
    let e : start + rest ≡ length ls = omega (arith, small) in
    (
      stretch q.first ls 0 start,
      stretch q.first ls start rest,
      levels-split q start rest e,
      length-stretch q.first ls 0 start,
      small,
      ap (λ x. map (λ l. build_path_for_quality js base l ls) x) (rotate-levels q start rest e),
    )
