-- ===== src/Recorder/Ensures.antt =====
-- What a method that may throw ensures.
use robot_maintanance.Prelude.{
  String, Bool, true, false, ◌≡◌, refl, ◌≢◌, ◌===◌, if◌then◌else◌, arith, eq_iff,
}
use robot_maintanance.Recorder.Draft.{Result, done, throw}

-- The draft of a result satisfies the statement; a throw leaves the draft as it was.
abbrev pub Ensures {κ} : {A : Type 0} → (A → Type κ) → Result A → Type κ
Ensures P (done a) = P a
Ensures P (throw message) = Unit

-- A guard: each branch under its test.
pub Ensures-if {κ} :
    {A : Type 0} (P : A → Type κ) (b : Bool) (x y : Result A)
    → (b ≡ true → Ensures P x)
    → (b ≡ false → Ensures P y)
    → Ensures P (if b then x else y)
Ensures-if P true x y f g = f refl
Ensures-if P false x y f g = g refl

pub ne_of_test : (s t : String) → (s === t) ≡ false → s ≢ t
ne_of_test s t h = ground (arith, eq_iff s t)
