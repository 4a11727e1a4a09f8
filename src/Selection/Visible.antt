-- ===== src/Selection/Visible.antt =====
-- The counts and the sections of the dashboard (dashboardRuntimeFleetView.js).
use robot_maintanance.Prelude.{◌+◌, Bool, not, List, [], ◌∷◌, map, filter, length, ◌≡◌, refl, arith}
use robot_maintanance.Js.Engine.{Engine}
use robot_maintanance.Fleet.{Robot, id_of}
use robot_maintanance.Selection.{
  update_kpis, Filter, apply_filters, is_online, visible_online_robot_ids,
  visible_offline_robot_ids,
}

-- Every robot of the list is counted in exactly one of the three counts.
pub update_kpis-total :
    (js : Engine) (list : List Robot)
    → (update_kpis js list).kpi_healthy
        + (update_kpis js list).kpi_warn
        + (update_kpis js list).kpi_critical
      ≡ length list
unfolding update_kpis
update_kpis-total js [] = refl
update_kpis-total js (r ∷ rs) = ground (arith, update_kpis-total js rs)

split-length {ℓ} :
    {A : Type ℓ} {B : Type ℓ} (f : A → B) (p : A → Bool) (xs : List A)
    → length (map f (filter p xs)) + length (map f (filter (λ x. not (p x)) xs)) ≡ length xs
split-length f p [] = refl
split-length f p (x ∷ xs) = ground (arith, split-length f p xs)

-- Every robot that the filter shows stands in exactly one of the online and the offline section.
pub visible-split :
    (js : Engine) (f : Filter) (robots : List Robot)
    → length (visible_online_robot_ids js f robots) + length (visible_offline_robot_ids js f robots)
      ≡ length (apply_filters js f robots)
visible-split js f robots = split-length id_of is_online (apply_filters js f robots)
