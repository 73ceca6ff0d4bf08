-- ===== src/Controller/Run/Made.antt =====
-- When the writes of runSosreportJobs of controllers/sosreport_controller.go to its lists and
-- annotations do not panic.
use sosreport_operator.Prelude.{
  String, ◌≡◌, inl, inr, refl, Bool, true, false, some, List, [], ◌∷◌, arith, ◌==◌, eq_refl,
  Option-cases, Bool-cases,
}
use sosreport_operator.GoMap.{NodeSet, nil_map, made, get, assign, get_text, assign_in, delete_in}
use sosreport_operator.GoMap.Assoc.{put}
use sosreport_operator.GoMap.Laws.{get-assign}
use sosreport_operator.Api.{Sosreport}
use sosreport_operator.Controller.State.{SosreportReconciler}
use sosreport_operator.Controller.Schedule.{annotate}
use sosreport_operator.Controller.Run.{make_running, move_nodes, refresh_annotation}

-- The Sosreport's own running list is made.
abbrev pub IsMade : String → SosreportReconciler → Type 0
IsMade uid r =
    (l : List (String × NodeSet)) × (own : List (String × Unit {0})) × (r.job_running_list ≡ made l)
    × (get (made l) uid ≡ some (made own))

IsMade-put :
    (uid : String) (r : SosreportReconciler) (l : List (String × NodeSet))
    (own : List (String × Unit {0}))
    → r.job_running_list ≡ made (put uid (made own) l)
    → IsMade uid r
unfolding assign
IsMade-put uid r l own is = (
  put uid (made own) l,
  own,
  is,
  ground (
    arith,
    eq_refl uid,
    get-assign (made l) uid (made own) {m' = made (put uid (made own) l)} uid refl,
  ),
)

assign_in_made :
    (uid n : String) (r : SosreportReconciler)
    → IsMade uid r
    → (l : List (String × NodeSet)) × (own : List (String × Unit {0})) × (assign_in
          r.job_running_list uid n
        ≡ some (made (put uid (made own) l)))
unfolding assign_in assign
assign_in_made uid n r (l, own, is, has') = (l, put n tt own, ground (arith, is, has'))

pub move_nodes_returns :
    (uid : String) (r : SosreportReconciler) (ns : List String)
    → IsMade uid r
    → (r' : SosreportReconciler) × (move_nodes r uid ns ≡ some r')
unfolding move_nodes
move_nodes_returns uid r [] h = (r, refl)
move_nodes_returns uid r (n ∷ ns) h =
    let (l, own, stored) = assign_in_made uid n r h in
    let next : SosreportReconciler = record r {
      job_running_list = made (put uid (made own) l);
      job_to_run_list = delete_in r.job_to_run_list uid n;
    } in
    let (r', ran) = move_nodes_returns uid next ns (IsMade-put uid next l own refl) in
    (r', ground (arith, stored, ran))

pub make_running_returns :
    (uid : String) (r : SosreportReconciler) (l : List (String × NodeSet))
    → r.job_running_list ≡ made l
    → (r' : SosreportReconciler) × (make_running r uid ≡ some r') × IsMade uid r'
unfolding make_running assign
make_running_returns uid r l is =
    let fresh : SosreportReconciler = record r { job_running_list = made (put uid (made []) l) } in
    elim (Option-cases (get (made l) uid)) [
      | inl a ↦ (fresh, ground (arith, is, a), IsMade-put uid fresh l [] refl)
      | inr (nil_map, a) ↦ (fresh, ground (arith, is, a), IsMade-put uid fresh l [] refl)
      | inr (made own, a) ↦ (r, ground (arith, is, a), (l, own, is, a))
    ]

pub refresh_returns :
    (s : Sosreport) (k j : String) (l : List (String × String))
    → s.metadata.annotations ≡ made l
    → (b : Bool) × (s' : Sosreport) × (l' : List (String × String)) × (refresh_annotation s k j
        ≡ some (b, s'))
      × (s'.metadata.annotations ≡ made l')
unfolding refresh_annotation annotate assign
refresh_returns s k j l is = elim (Bool-cases (get_text s.metadata.annotations k == j)) [
  | inl a ↦ (false, s, l, ground (arith, a), is)
  | inr a ↦ (
    true,
    record s { metadata = record (s.metadata) { annotations = made (put k j l) } },
    put k j l,
    ground (arith, a, is),
    refl,
  )
]
