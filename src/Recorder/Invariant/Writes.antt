-- ===== src/Recorder/Invariant/Writes.antt =====
-- The names and the ids of the write blocks, under the changes of the list of blocks.
use robot_maintanance.Prelude.{
  String, Bool, false, ◌||◌, List, [], ◌∷◌, ◌++◌, ◌≡◌, refl, ◌===◌, All, filter, contains, arith,
  eq_iff, inl, inr, Bool-cases,
}
use robot_maintanance.Recorder.Draft.{Block, write, read, save_as_list, rename_reads}
use robot_maintanance.Recorder.Invariant.Lists.{IsDistinct, write_ids}

pub save_as_list-rename_reads :
    (old new : String) (bs : List Block) → save_as_list (rename_reads old new bs) ≡ save_as_list bs
unfolding rename_reads
save_as_list-rename_reads old new [] = refl
save_as_list-rename_reads old new (write i c s o ∷ bs) = rw (save_as_list-rename_reads old new bs)
save_as_list-rename_reads old new (read i k r ∷ bs) = save_as_list-rename_reads old new bs

-- The names of a part of the blocks.
contains-save_as_filter :
    (p : Block → Bool) (s : String) (bs : List Block)
    → contains s (save_as_list bs) ≡ false
    → contains s (save_as_list (filter p bs)) ≡ false
unfolding contains
contains-save_as_filter p s [] h = h
contains-save_as_filter p s (write i c t o ∷ bs) h = ground (arith, contains-save_as_filter p s bs)
contains-save_as_filter p s (read i k r ∷ bs) h = ground (arith, contains-save_as_filter p s bs)

pub IsDistinct-filter :
    (p : Block → Bool) (bs : List Block)
    → IsDistinct (save_as_list bs)
    → IsDistinct (save_as_list (filter p bs))
IsDistinct-filter p [] h = tt
IsDistinct-filter p (write i c s o ∷ bs) h =
    ground (arith, contains-save_as_filter p s bs, IsDistinct-filter p bs)
IsDistinct-filter p (read i k r ∷ bs) h = ground (arith, IsDistinct-filter p bs)

pub write_ids-rename_reads :
    (old new : String) (bs : List Block) → write_ids (rename_reads old new bs) ≡ write_ids bs
unfolding rename_reads
write_ids-rename_reads old new [] = refl
write_ids-rename_reads old new (write i c s o ∷ bs) = rw (write_ids-rename_reads old new bs)
write_ids-rename_reads old new (read i k r ∷ bs) = write_ids-rename_reads old new bs

contains-write_ids-filter :
    (p : Block → Bool) (s : String) (bs : List Block)
    → contains s (write_ids bs) ≡ false
    → contains s (write_ids (filter p bs)) ≡ false
unfolding contains
contains-write_ids-filter p s [] h = h
contains-write_ids-filter p s (write i c t o ∷ bs) h =
    ground (arith, contains-write_ids-filter p s bs)
contains-write_ids-filter p s (read i k r ∷ bs) h = ground (arith, contains-write_ids-filter p s bs)

pub IsDistinct-filter_ids :
    (p : Block → Bool) (bs : List Block)
    → IsDistinct (write_ids bs)
    → IsDistinct (write_ids (filter p bs))
IsDistinct-filter_ids p [] h = tt
IsDistinct-filter_ids p (write i c s o ∷ bs) h =
    ground (arith, contains-write_ids-filter p i bs, IsDistinct-filter_ids p bs)
IsDistinct-filter_ids p (read i k r ∷ bs) h = ground (arith, IsDistinct-filter_ids p bs)

pub All-filter_ids {κ} :
    (P : String → Type κ) (p : Block → Bool) (bs : List Block)
    → All P (write_ids bs)
    → All P (write_ids (filter p bs))
All-filter_ids P p [] h = tt
All-filter_ids P p (write i c s o ∷ bs) h = elim (Bool-cases (p (write i c s o))) [
  | inl e ↦ rw e (h.0, All-filter_ids P p bs h.1)
  | inr e ↦ rw e (All-filter_ids P p bs h.1)
]
All-filter_ids P p (read i k r ∷ bs) h = elim (Bool-cases (p (read i k r))) [
  | inl e ↦ rw e (All-filter_ids P p bs h)
  | inr e ↦ rw e (All-filter_ids P p bs h)
]

-- One more block at the end.
pub save_as_list-append :
    (bs cs : List Block) → save_as_list (bs ++ cs) ≡ save_as_list bs ++ save_as_list cs
save_as_list-append [] cs = refl
save_as_list-append (write i c s o ∷ bs) cs = rw (save_as_list-append bs cs)
save_as_list-append (read i k r ∷ bs) cs = save_as_list-append bs cs

pub write_ids-append : (bs cs : List Block) → write_ids (bs ++ cs) ≡ write_ids bs ++ write_ids cs
write_ids-append [] cs = refl
write_ids-append (write i c s o ∷ bs) cs = rw (write_ids-append bs cs)
write_ids-append (read i k r ∷ bs) cs = write_ids-append bs cs

contains-append :
    (s : String) (ss ts : List String) → contains s (ss ++ ts) ≡ (contains s ss || contains s ts)
unfolding contains
contains-append s [] ts = refl
contains-append s (t ∷ ss) ts = ground (arith, contains-append s ss ts)

contains_single : (s t : String) → contains s (t ∷ []) ≡ (t === s)
unfolding contains
contains_single s t = ground arith

pub IsDistinct-append_one :
    (ss : List String) (s : String)
    → contains s ss ≡ false
    → IsDistinct ss
    → IsDistinct (ss ++ s ∷ [])
unfolding contains
IsDistinct-append_one [] s f h = (refl, tt)
IsDistinct-append_one (t ∷ ss) s f h = ground (
  arith,
  eq_iff s t,
  eq_iff t s,
  contains-append t ss (s ∷ []),
  contains_single t s,
  IsDistinct-append_one ss s,
)
