-- ===== src/Fleet/Ids.antt =====
-- Ids of robots in lists of ids: `robotId` of dashboardRuntimeFleetView.js.
use robot_maintanance.Prelude.{
  String, true, not, filter, List, [], ◌∷◌, map, ◌===◌, ◌≡◌, ◌≢◌, ◌⊎◌, inl, inr, refl, arith,
  eq_iff, contains,
}
use robot_maintanance.Js.{trim}
use robot_maintanance.Normalize.{clean}
use robot_maintanance.Normalize.Laws.{IsClean, clean-cases, clean_of_IsClean}
use robot_maintanance.Fleet.{Robot, id_of, robot_id, robot_ids}

pub contains-map-robot_id :
    (ids : List String) (id : String)
    → robot_id id ≡ id
    → contains id ids ≡ true
    → contains id (map robot_id ids) ≡ true
unfolding contains
contains-map-robot_id [] id e h = h
contains-map-robot_id (i ∷ ids) id e h =
    ground (arith, e, contains-map-robot_id ids id e, eq_iff i id, eq_iff (robot_id i) id, h)

-- An id of the list of robots is clean or empty.
pub map-id_of-clean :
    (rs : List Robot) (id : String) → contains id (map id_of rs) ≡ true → id ≢ "" → robot_id id ≡ id
unfolding contains
map-id_of-clean [] id h ne = cc
map-id_of-clean (r ∷ rs) id h ne =
    ground (arith, h, ne, eq_iff (id_of r) id, map-id_of-clean rs id, fixed)
  where
    fixed : (id ≡ id_of r) → robot_id id ≡ id
    fixed e = go (clean-cases r.id "")
      where
        go : IsClean (id_of r) ⊎ (id_of r ≡ "") → robot_id id ≡ id
        go (inl c) = rw (e, clean_of_IsClean (id_of r) "" c)
        go (inr z) = ground (arith, ne, e, z)

robot_id-id_of : (r : Robot) → id_of r ≢ "" → robot_id (id_of r) ≡ id_of r
robot_id-id_of r ne = go (clean-cases r.id "")
  where
    go : IsClean (id_of r) ⊎ (id_of r ≡ "") → robot_id (id_of r) ≡ id_of r
    go (inl c) = clean_of_IsClean (id_of r) "" c
    go (inr z) = ground (arith, ne, z)

-- Normalising the ids of the fleet once more changes nothing.
pub robot_ids-ids :
    (rs : List Robot)
    → robot_ids (filter (λ id. not (id === "")) (map id_of rs))
      ≡ filter (λ id. not (id === "")) (map id_of rs)
robot_ids-ids [] = refl
robot_ids-ids (r ∷ rs) = ground (arith, robot_ids-ids rs, robot_id-id_of r, eq_iff (id_of r) "")

pub robot_id-empty : robot_id "" ≡ ""
unfolding clean trim
robot_id-empty = refl

pub robot_id-robot_id : (id : String) → robot_id (robot_id id) ≡ robot_id id
robot_id-robot_id id = elim (clean-cases id "") [
  | inl good ↦ clean_of_IsClean (robot_id id) "" good
  | inr blank ↦ rw blank robot_id-empty
]
