-- ===== src/Controller/Track/Status.antt =====
-- What synchronizeRunningStatus of controllers/sosreport_controller.go copies into the status.
use mathlib.Core.List.Perm
use sosreport_operator.Prelude.{String, ◌≡◌, ◌∙◌, map, contains, contains-perm}
use sosreport_operator.GoMap.{GoMap, entries, has}
use sosreport_operator.GoMap.Sets.{contains-entries}
use sosreport_operator.Env.{Env, RangeIsPerm}
use sosreport_operator.Controller.State.{State}

-- The names of a range are the keys of the map.
pub contains-range :
    {e : Env} (law : RangeIsPerm e) {V : Type 0} (m : GoMap V) (w : e.World) (k : String)
    → contains k (map (λ x. x.0) (e.range_order (String × V) (entries m) w).0) ≡ has m k
contains-range {e} law {V} m w k =
    contains-perm k (Perm.map (λ x. x.0) (law.perm (String × V) (entries m) w))
    ∙ contains-entries k m
