-- ===== src/Tests/Parts.antt =====
-- The properties of the other methods of controllers/sosreport_controller.go at concrete inputs.
use sosreport_operator.Prelude.{
  String, ◌≡◌, ◌↔◌, refl, true, none, some, List, [], ◌∷◌, count, ◌≤◌, arith, Any, All, select,
}
use sosreport_operator.GoMap.{made, entries, get}
use sosreport_operator.Exec.{done, panic}
use sosreport_operator.Controller.Config.Environment.{
  get_env_configuration_lem, credentials_from_secret, written, or_old,
}
use sosreport_operator.Controller.Config.{
  get_env_configuration, key_map_secret, key_map_upload, same_text, trim_newlines,
}
use sosreport_operator.Controller.Select.{is_job_done, owned_jobs, tolerates}
use sosreport_operator.Controller.Select.Tolerance.{tolerates_iff, IsTolerated}
use sosreport_operator.Controller.Select.Ownership.{
  is_job_done_iff, IsEnd, owned_jobs-eq-select, belongs, owned_jobs_panic,
}
use sosreport_operator.Controller.Template.{short_name, job_name, pvc_name}
use sosreport_operator.Controller.Template.Names.{names_fit}
use sosreport_operator.Controller.Track.{dequeue_loop, is_done, synchronize_job_running_cache}
use sosreport_operator.Controller.Track.Dequeue.{Dequeued, dequeue_loop-Dequeued}
use sosreport_operator.Controller.Track.Done.{is_done_iff, IsEmpty}
use sosreport_operator.Controller.Track.Restart.{synchronize_job_running_cache-Restored, Restored}
use sosreport_operator.Tests.{
  program, request, report, taint, template, finished_job, ready, initial, both_done,
}
use sosreport_operator.Tests.States.{annotated, running, conditions, stray, stray_job, restarted}

dequeue_loop-Dequeued_example :
    ((dequeue_loop ready (finished_job "node-a" ∷ []) running).0 ≡ done tt)
    × ((dequeue_loop ready (finished_job "node-a" ∷ []) running).1.s ≡ annotated)
    × Dequeued "u1" running.r
        (dequeue_loop ready (finished_job "node-a" ∷ []) running).1.r
        ("node-a" ∷ [])
unfolding program
dequeue_loop-Dequeued_example = dequeue_loop-Dequeued ready (finished_job "node-a" ∷ []) running

is_done_iff_example :
    (is_done running.r "u1" ≡ true)
    ↔ (IsEmpty running.r.job_to_run_list "u1" × IsEmpty running.r.job_running_list "u1")
is_done_iff_example = is_done_iff running.r "u1"

tolerates_iff_example :
    (tolerates ready report.spec.tolerations (taint "gpu" ∷ []) ≡ true)
    ↔ All (IsTolerated ready report.spec.tolerations) (taint "gpu" ∷ [])
tolerates_iff_example = tolerates_iff ready report.spec.tolerations (taint "gpu" ∷ [])

is_job_done_iff_example : ((is_job_done conditions).0 ≡ true) ↔ Any IsEnd conditions
is_job_done_iff_example = is_job_done_iff conditions

owned_jobs-eq-select_example : owned_jobs "u1" both_done ≡ done (select (belongs "u1") both_done)
owned_jobs-eq-select_example =
    owned_jobs-eq-select "u1" both_done (((λ h. cc), tt), (((λ h. cc), tt), tt))

owned_jobs_panic_example : owned_jobs "u1" (template ∷ stray_job ∷ both_done) ≡ panic
owned_jobs_panic_example =
    owned_jobs_panic "u1" stray_job stray [] (template ∷ []) both_done refl refl (tt, tt)

names_fit_example :
    (short : String) × (short_name "report" "worker-0.example.com" ≡ some short)
    × (short ≡ "worker-0")
    × (count (job_name "report" short "20201126120000") ≤ 63)
    × (count (pvc_name (job_name "report" short "20201126120000")) ≤ 63)
unfolding program
names_fit_example = names_fit "report" "worker-0.example.com" "20201126120000" (omega arith) refl

get_env_configuration_lem_example :
    (l : List (String × String)) × (get_env_configuration ready request initial
      ≡ (done (made l), initial))
    × ((j : String)
        → get (made l) j
          ≡ or_old (written key_map_secret trim_newlines j (("password", "pw\n") ∷ [])) (
              or_old none (
                written key_map_upload same_text j
                  (("case-number", "42") ∷ ("PASSWORD", "no") ∷ []))))
unfolding entries
get_env_configuration_lem_example = get_env_configuration_lem ready request initial

credentials_from_secret_example :
    (l : List (String × String)) × ((get_env_configuration ready request initial).0 ≡ done (made l))
    × (get (made l) "USERNAME" ≡ none)
    × (get (made l) "PASSWORD" ≡ some "pw")
unfolding program
credentials_from_secret_example = credentials_from_secret ready request initial

synchronize_job_running_cache-Restored_example :
    ((synchronize_job_running_cache ready restarted).0 ≡ done none)
    × ((synchronize_job_running_cache ready restarted).1.s ≡ restarted.s)
    × ((synchronize_job_running_cache ready restarted).1.w ≡ [])
    × Restored "u1"
        (made [])
        (synchronize_job_running_cache ready restarted).1.r.job_to_run_list
        (some (made (("node-b", tt) ∷ [])))
    × Restored "u1"
        (made [])
        (synchronize_job_running_cache ready restarted).1.r.job_running_list
        (some (made (("node-a", tt) ∷ [])))
unfolding program
synchronize_job_running_cache-Restored_example =
    synchronize_job_running_cache-Restored ready restarted [] [] refl refl refl refl
