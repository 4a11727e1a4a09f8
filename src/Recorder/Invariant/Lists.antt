-- ===== src/Recorder/Invariant/Lists.antt =====
-- The invariant of a draft, and what the list helpers do to its parts.
use robot_maintanance.Prelude.{
  ℕ, ◌≤◌, String, true, false, not, List, [], ◌∷◌, ◌++◌, ◌≡◌, refl, ◌≢◌, ◌===◌, All, filter,
  contains, arith, eq_iff, eq_refl, any-append, ◌⊎◌, inl, inr, Bool-cases,
}
use robot_maintanance.Js.{template}
use robot_maintanance.Js.Engine.{Engine}
use robot_maintanance.Recorder.Token.Laws.{IsToken}
use robot_maintanance.Recorder.Draft.{
  Output, Block, write, read, Draft, has_key, save_as_list, replace_output, rename_reads,
  reads_output, count_text,
}

abbrev pub IsDistinct : List String → Type 0
IsDistinct [] = Unit
IsDistinct (s ∷ ss) = (contains s ss ≡ false) × IsDistinct ss

abbrev pub HasDistinctKeys : List Output → Type 0
HasDistinctKeys [] = Unit
HasDistinctKeys (o ∷ os) = (has_key o.key os ≡ false) × HasDistinctKeys os

-- A read block reads into an output of the draft.
abbrev pub IsBound : List Output → Block → Type 0
IsBound os (write i c s o) = Unit
IsBound os (read i k r) = has_key k os ≡ true

abbrev pub IsKey : Output → Type 0
IsKey o = IsToken o.key × (o.key ≢ "")

abbrev pub write_ids : List Block → List String
write_ids [] = []
write_ids (write i c s o ∷ bs) = i ∷ write_ids bs
write_ids (read i k r ∷ bs) = write_ids bs

-- The id `write_k` of a write block that has been counted.
abbrev pub IsNumbered : Engine → ℕ → String → Type 0
IsNumbered js n id = (k : ℕ) × (k ≤ n) × (id ≡ template ("write_" ∷ count_text js k ∷ []))

pub record IsValid (js : Engine) (d : Draft) : Type 0 where
  -- every key is a token that is not empty, and no two outputs share one
  pub tokens : All IsKey d.outputs
  pub keys : HasDistinctKeys d.outputs
  -- every read block belongs to an output
  pub bound : All (IsBound d.outputs) d.blocks
  -- no two write blocks save under one name
  pub names : IsDistinct (save_as_list d.blocks)
  -- the ids of the write blocks differ, and were given by the counter
  pub ids : IsDistinct (write_ids d.blocks)
  pub numbered : All (IsNumbered js d.write_count) (write_ids d.blocks)

pub All-mono {ℓ κ λ'} :
    {A : Type ℓ} (P : A → Type κ) (Q : A → Type λ') (xs : List A)
    → ((x : A) → P x → Q x)
    → All P xs
    → All Q xs
All-mono P Q [] f h = tt
All-mono P Q (x ∷ xs) f h = (f x h.0, All-mono P Q xs f h.1)

module _ (old : String) (p : Output) where
  pub has_key-replace_output_ne :
      (j : String) (os : List Output)
      → j ≢ old
      → has_key j os ≡ true
      → has_key j (replace_output old p os) ≡ true
  unfolding replace_output
  has_key-replace_output_ne j [] ne h = h
  has_key-replace_output_ne j (o ∷ os) ne h =
      ground (arith, eq_iff o.key j, eq_iff o.key old, has_key-replace_output_ne j os ne)

  pub has_key-replace_output_self :
      (os : List Output) → has_key old os ≡ true → has_key p.key (replace_output old p os) ≡ true
  unfolding replace_output
  has_key-replace_output_self [] h = absurd (false-ne-true h)
    where
      false-ne-true : false ≡ true → ⊥
      false-ne-true e = cc
  has_key-replace_output_self (o ∷ os) h =
      ground (arith, eq_iff p.key p.key, eq_refl p.key, has_key-replace_output_self os)

  has_key_of_replace_output :
      (j : String) (os : List Output)
      → j ≢ p.key
      → has_key j os ≡ false
      → has_key j (replace_output old p os) ≡ false
  unfolding replace_output
  has_key_of_replace_output j [] ne h = h
  has_key_of_replace_output j (o ∷ os) ne h =
      ground (arith, eq_iff o.key j, eq_iff p.key j, has_key_of_replace_output j os ne)

  pub HasDistinctKeys-replace_output :
      (os : List Output)
      → (p.key ≡ old) ⊎ (has_key p.key os ≡ false)
      → HasDistinctKeys os
      → HasDistinctKeys (replace_output old p os)
  unfolding replace_output
  HasDistinctKeys-replace_output [] f h = tt
  HasDistinctKeys-replace_output (o ∷ os) f h = ground (
    arith,
    eq_iff o.key old,
    eq_iff o.key p.key,
    HasDistinctKeys-replace_output os,
    has_key_of_replace_output o.key os,
  )

  pub All-replace_output {κ} :
      (P : Output → Type κ) (os : List Output) → P p → All P os → All P (replace_output old p os)
  unfolding replace_output
  All-replace_output P [] hp h = tt
  All-replace_output P (o ∷ os) hp h = elim (Bool-cases (o.key === old)) [
    | inl e ↦ rw e (hp, h.1)
    | inr e ↦ rw e (h.0, All-replace_output P os hp h.1)
  ]

  pub IsBound-rename_reads :
      (os : List Output) (bs : List Block)
      → has_key old os ≡ true
      → All (IsBound os) bs
      → All (IsBound (replace_output old p os)) (rename_reads old p.key bs)
  unfolding rename_reads
  IsBound-rename_reads os [] k h = tt
  IsBound-rename_reads os (write i c s o ∷ bs) k h = (tt, IsBound-rename_reads os bs k h.1)
  IsBound-rename_reads os (read i key r ∷ bs) k h = (
    ground
        (arith, eq_iff key old, has_key-replace_output_ne key os, has_key-replace_output_self os),
    IsBound-rename_reads os bs k h.1,
  )

pub HasDistinctKeys-append :
    (os : List Output) (p : Output)
    → has_key p.key os ≡ false
    → HasDistinctKeys os
    → HasDistinctKeys (os ++ p ∷ [])
HasDistinctKeys-append [] p f h = (refl, tt)
HasDistinctKeys-append (o ∷ os) p f h = ground (
  arith,
  eq_iff o.key p.key,
  eq_iff p.key o.key,
  any-append (λ q. q.key === o.key) os (p ∷ []),
  HasDistinctKeys-append os p,
)

pub IsBound-append :
    (os : List Output) (p : Output) (b : Block) → IsBound os b → IsBound (os ++ p ∷ []) b
IsBound-append os p (write i c s o) h = tt
IsBound-append os p (read i k r) h = ground (arith, any-append (λ q. q.key === k) os (p ∷ []))

-- Removing an output keeps the others.
has_key-filter :
    (key j : String) (os : List Output)
    → j ≢ key
    → has_key j (filter (λ o. not (o.key === key)) os) ≡ has_key j os
has_key-filter key j [] ne = refl
has_key-filter key j (o ∷ os) ne =
    ground (arith, eq_iff o.key key, eq_iff o.key j, has_key-filter key j os ne)

has_key-filter-false :
    (key j : String) (os : List Output)
    → has_key j os ≡ false
    → has_key j (filter (λ o. not (o.key === key)) os) ≡ false
has_key-filter-false key j [] h = h
has_key-filter-false key j (o ∷ os) h = ground (arith, has_key-filter-false key j os)

pub HasDistinctKeys-filter :
    (key : String) (os : List Output)
    → HasDistinctKeys os
    → HasDistinctKeys (filter (λ o. not (o.key === key)) os)
HasDistinctKeys-filter key [] h = tt
HasDistinctKeys-filter key (o ∷ os) h =
    ground (arith, has_key-filter-false key o.key os, HasDistinctKeys-filter key os)

pub IsBound-filter :
    (key : String) (os : List Output) (bs : List Block)
    → All (IsBound os) bs
    → All
        (IsBound (filter (λ o. not (o.key === key)) os))
        (filter (λ b. not (reads_output key b)) bs)
IsBound-filter key os [] h = tt
IsBound-filter key os (write i c s o ∷ bs) h = (tt, IsBound-filter key os bs h.1)
IsBound-filter key os (read i k r ∷ bs) h = elim (Bool-cases (k === key)) [
  | inl e ↦ rw e (IsBound-filter key os bs h.1)
  | inr e ↦
      rw e (ground (arith, eq_iff k key, has_key-filter key k os), IsBound-filter key os bs h.1)
]
