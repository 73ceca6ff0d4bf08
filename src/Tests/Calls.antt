-- ===== src/Tests/Calls.antt =====
-- The calls of Reconcile of controllers/sosreport_controller.go for one Sosreport, from the first to
-- the one that finishes it.
use sosreport_operator.Prelude.{◌≡◌, refl, true, false, [], ◌∷◌}
use sosreport_operator.GoMap.{made}
use sosreport_operator.Controller.State.{State}
use sosreport_operator.Controller.Reconcile.{reconcile}
use sosreport_operator.Tests.{
  program, request, report, finished_job, cluster, scheduled, next_state, first_running, both_done,
}

abbrev second_running : State (cluster report (finished_job "node-a" ∷ []) true)
second_running =
    (reconcile (cluster report (finished_job "node-a" ∷ []) true) request
      (next_state _ first_running.r)).1

-- the last call finds both done
abbrev last_state : State (cluster report both_done true)
last_state =
    (reconcile (cluster report both_done true) request (next_state both_done second_running.r)).1

first_call :
    (scheduled.r.run_list ≡ made (("u1", tt) ∷ []))
    × (scheduled.r.job_to_run_list
        ≡ made (("u1", made (("node-a", tt) ∷ ("node-b", tt) ∷ [])) ∷ []))
    × (scheduled.s.status.in_progress ≡ true)
unfolding program
first_call = (refl, refl, refl)

second_call :
    (first_running.r.job_to_run_list ≡ made (("u1", made (("node-b", tt) ∷ [])) ∷ []))
    × (first_running.r.job_running_list ≡ made (("u1", made (("node-a", tt) ∷ [])) ∷ []))
    × (first_running.w ≡ ("Sosreport started on node-a" ∷ "report-node-a-20201126120000" ∷ []))
unfolding program
second_call = (refl, refl, refl)

third_call :
    (second_running.r.job_running_list ≡ made (("u1", made (("node-b", tt) ∷ [])) ∷ []))
    × (second_running.s.status.outstanding_nodes ≡ [])
    × (second_running.s.status.currently_running_nodes ≡ ("node-b" ∷ []))
    × (second_running.s.status.finished ≡ false)
unfolding program
third_call = (refl, refl, refl, refl)

last_call :
    (last_state.r.job_running_list ≡ made (("u1", made []) ∷ []))
    × (last_state.s.status.finished ≡ true)
    × (last_state.s.status.in_progress ≡ false)
unfolding program
last_call = (refl, refl, refl)
