-- ===== src/Tests/Runs.antt =====
-- The properties of runSosreportJobs and Reconcile of controllers/sosreport_controller.go at concrete
-- inputs.
use sosreport_operator.Prelude.{
  ◌↔◌, ◌⊎◌, String, ◌≡◌, ◌↔◌, refl, true, false, ◌||◌, none, some, List, [], ◌∷◌, pos, ◌≤◌, arith,
  inr,
}
use sosreport_operator.GoMap.{made, get_map, len}
use sosreport_operator.GoMap.Sets.{holds}
use sosreport_operator.Exec.{done, panic}
use sosreport_operator.Env.{ok, err}
use sosreport_operator.Controller.Config.Settings.{Configured}
use sosreport_operator.Controller.Run.{run_sosreport_jobs, start_loop}
use sosreport_operator.Controller.Run.Effect.{Ran, run_sosreport_jobs-Ran}
use sosreport_operator.Controller.Run.Bound.{
  concurrency_respected, negative_concurrency_starts_nothing, no_node_lost,
}
use sosreport_operator.Controller.Run.Crash.{start_loop_panics}
use sosreport_operator.Controller.Reconcile.{
  reconcile, start, dispatch, progress, settle, configure,
}
use sosreport_operator.Controller.Reconcile.Branches.{reconcile_idle, start_failed}
use sosreport_operator.Controller.Lifecycle.Conclude.{settle_iff}
use sosreport_operator.Controller.Track.Done.{IsEmpty}
use sosreport_operator.Controller.Reconcile.Configure.{configure_lem}
use sosreport_operator.Controller.Config.Settings.{value_of}
use sosreport_operator.Controller.State.{SosreportLogLevel, debug_level, info_level}
use sosreport_operator.Controller.Run.Total.{run_sosreport_jobs_returns}
use sosreport_operator.Controller.Reconcile.Call.{reconcile_respects_concurrency}
use sosreport_operator.Main.{enabled}
use sosreport_operator.Main.Level.{configured_level}
use sosreport_operator.Tests.{program, request, report, cluster_range, fresh, ready, initial}
use sosreport_operator.Tests.States.{
  waiting, ran, stopped, running, finished_report, over, over_state, broken, broken_state, unfit,
  ready_template, started, ready_identity,
}

run_sosreport_jobs-Ran_example : (started : List String) × Ran waiting.r ran.r "u1" started
unfolding program
run_sosreport_jobs-Ran_example =
    run_sosreport_jobs-Ran ready (cluster_range report [] true) request waiting {x = (true, none)}
      refl

concurrency_respected_example : len (get_map ran.r.job_running_list "u1") ≤ 1
unfolding program
concurrency_respected_example =
    concurrency_respected ready (cluster_range report [] true) request waiting 1 {x = (true, none)}
      refl (omega arith) (omega arith) refl

no_node_lost_example :
    (holds ran.r.job_to_run_list "u1" "node-a" || holds ran.r.job_running_list "u1" "node-a") ≡ true
unfolding program
no_node_lost_example =
    no_node_lost ready (cluster_range report [] true) request waiting "u1" "node-a"
      {x = (true, none)} refl

negative_concurrency_starts_nothing_example :
    (holds (run_sosreport_jobs ready request stopped).1.r.job_to_run_list "u1" "node-a" ≡ true)
    × (holds (run_sosreport_jobs ready request stopped).1.r.job_running_list "u1" "node-a" ≡ false)
unfolding program
negative_concurrency_starts_nothing_example =
    negative_concurrency_starts_nothing ready (cluster_range report [] true) request stopped 2 "u1"
      "node-a" {x = (true, none)} refl (omega arith) refl

reconcile_idle_example :
    ((reconcile over request over_state).0 ≡ done none)
    × ((reconcile over request over_state).1.r ≡ fresh)
    × ((reconcile over request over_state).1.w ≡ [])
reconcile_idle_example = reconcile_idle over request over_state (ok finished_report) [] refl refl

start_failed_example :
    ((start broken request broken_state).0 ≡ done (some "unreachable"))
    × ((start broken request broken_state).1.r.job_to_run_list ≡ made [])
    × ((start broken request broken_state).1.r.job_running_list ≡ made [])
    × (dispatch broken request (start broken request broken_state).1
        ≡ progress broken request (start broken request broken_state).1)
start_failed_example = start_failed broken request broken_state "unreachable" [] [] refl refl

settle_iff_example :
    ((settle ready running).0 ≡ done tt)
    × ((settle ready running).1.r ≡ running.r)
    × (((settle ready running).1.s.status.finished ≡ true) ↔ (
        (IsEmpty running.r.job_to_run_list "u1" × IsEmpty running.r.job_running_list "u1")
        ⊎ (running.s.status.finished ≡ true)))
    × (((settle ready running).1.s.status.in_progress ≡ true) ↔ (
        (running.s.status.in_progress ≡ true)
        × ¬ (IsEmpty running.r.job_to_run_list "u1" × IsEmpty running.r.job_running_list "u1")))
unfolding program
settle_iff_example = settle_iff ready request running

start_loop_panics_example :
    (start_loop ready (made []) (pos 1) 0 [] ("node-a" ∷ []) unfit).0 ≡ panic
unfolding program
start_loop_panics_example =
    start_loop_panics ready (made []) (pos 1) 0 [] "node-a" [] unfit refl (inr refl)

configure_lem_example :
    ((configure ready request initial).0 ≡ done tt)
    × ((configure ready request initial).1.s ≡ report)
    × ((configure ready request initial).1.r.run_list ≡ made [])
    × ((configure ready request initial).1.r.job_to_run_list ≡ made [])
    × ((configure ready request initial).1.r.job_running_list ≡ made [])
    × Configured
        (err "not found")
        (ok (record { entries = made (("concurrency", "1") ∷ []) }))
        (err "not found")
        (configure ready request initial).1.r
configure_lem_example = configure_lem ready request initial

configured_level_example :
    (l : SosreportLogLevel) × ((configure ready request initial).1.r.dynamic_log_level ≡ some l)
    × (enabled l info_level ≡ true)
    × ((enabled l debug_level ≡ true) ↔ (value_of (err "not found") "debug" ≡ some "true"))
configured_level_example = configured_level ready request initial

run_sosreport_jobs_returns_example :
    (run_sosreport_jobs ready request waiting).0 ≡ done (true, none)
unfolding program
run_sosreport_jobs_returns_example =
    run_sosreport_jobs_returns ready request waiting (omega arith) refl ready_template refl refl

reconcile_respects_concurrency_example :
    len (get_map (reconcile ready request started).1.r.job_running_list "u1") ≤ 1
unfolding program
reconcile_respects_concurrency_example =
    reconcile_respects_concurrency ready (cluster_range report [] true) ready_identity request
      started report [] "1" 1 {x = none} refl refl refl refl refl refl refl (omega arith)
      (omega arith) refl
