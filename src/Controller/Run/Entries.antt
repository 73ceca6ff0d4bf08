-- ===== src/Controller/Run/Entries.antt =====
-- What runSosreportJobs of controllers/sosreport_controller.go leaves of the entries of the maps of
-- lists: both keep every Sosreport that they have.
use sosreport_operator.Prelude.{
  String, ◌≡◌, ◌⊎◌, refl, true, some, List, [], ◌∷◌, arith, ◌∙◌, Option-cases, inl, inr,
}
use sosreport_operator.GoMap.{NodeSet, nil_map, made, has, get_map, assign, delete_in, assign_in}
use sosreport_operator.GoMap.Sets.{has-assign}
use sosreport_operator.GoMap.Entries.{has-delete_in, has-assign_in}
use sosreport_operator.Controller.State.{SosreportReconciler}
use sosreport_operator.Controller.Run.{make_running, move_nodes}

pub GoMap-cases : (m : NodeSet) → (m ≡ nil_map) ⊎ ((l : List (String × Unit {0})) × (m ≡ made l))
GoMap-cases nil_map = inl refl
GoMap-cases (made l) = inr (l, refl)

-- The Sosreport has an entry in a map of lists after a step if it had one before.
pub record Known (v : String) (r r' : SosreportReconciler) : Type 0 where
  pub to_run : has r.job_to_run_list v ≡ true → has r'.job_to_run_list v ≡ true
  pub running : has r.job_running_list v ≡ true → has r'.job_running_list v ≡ true

pub Known-refl : (v : String) (r : SosreportReconciler) → Known v r r
Known-refl v r = record { to_run = λ h. h; running = λ h. h }

pub Known-trans :
    {v : String} {r r₁ r₂ : SosreportReconciler} → Known v r r₁ → Known v r₁ r₂ → Known v r r₂
Known-trans a b = record {
  to_run = λ h. b.to_run (a.to_run h);
  running = λ h. b.running (a.running h);
}

module _ (v uid : String) where
  pub move_nodes-Known :
      (r : SosreportReconciler) (ns : List String) {r' : SosreportReconciler}
      → move_nodes r uid ns ≡ some r'
      → Known v r r'
  unfolding move_nodes
  move_nodes-Known r [] {r'} h = let same : r ≡ r' = ground arith in rw (← same) (Known-refl v r)
  move_nodes-Known r (n ∷ ns) {r'} h = elim (Option-cases (assign_in r.job_running_list uid n)) [
    | inl e ↦ absurd (ground (arith, e, h))
    | inr (m, e) ↦
        let next : SosreportReconciler = record r {
          job_running_list = m;
          job_to_run_list = delete_in r.job_to_run_list uid n;
        } in
        let step : Known v r next = record {
          to_run = λ h'. has-delete_in r.job_to_run_list uid n v ∙ h';
          running = λ h'. has-assign_in r.job_running_list uid n v e ∙ h';
        } in
        Known-trans step (move_nodes-Known next ns {r' = r'} (rw (e, move_nodes) at h))
  ]

  pub make_running-Known :
      (r : SosreportReconciler) {r' : SosreportReconciler}
      → make_running r uid ≡ some r'
      → Known v r r'
  unfolding make_running
  make_running-Known r {r'} h = elim (GoMap-cases (get_map r.job_running_list uid)) [
    | inr (l, e) ↦ let same : r ≡ r' = ground (arith, e, h) in rw (← same) (Known-refl v r)
    | inl e ↦ elim (Option-cases (assign r.job_running_list uid (made []))) [
      | inl f ↦ absurd (ground (arith, e, f, h))
      | inr (m, f) ↦
          let same : record r { job_running_list = m } ≡ r' = ground (arith, e, f, h) in
          rw (← same) (record {
            to_run = λ h'. h';
            running = λ h'. ground (arith, has-assign r.job_running_list uid (made []) v f, h');
          })
    ]
  ]
