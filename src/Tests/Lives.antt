-- ===== src/Tests/Lives.antt =====
-- The properties of restarts and of calls of Reconcile of controllers/sosreport_controller.go at
-- concrete inputs.
use Prim.Native.Nat.{min}
use sosreport_operator.Prelude.{
  length, String, ◌≡◌, refl, true, false, ◌&&◌, none, List, [], ◌∷◌, arith, ◌==◌, eq_iff,
  Bool-cases, inl, inr,
}
use sosreport_operator.GoMap.{made, get, has, entries}
use sosreport_operator.GoMap.Assoc.{find}
use sosreport_operator.GoMap.Sets.{holds}
use sosreport_operator.Exec.{done}
use sosreport_operator.Env.{Env, UpdateKeepsIdentity, UpdateKeepsAnnotations, CreatesObjects}
use sosreport_operator.Controller.State.{State}
use sosreport_operator.Controller.Track.{synchronize_job_running_cache}
use sosreport_operator.Controller.Run.{run_sosreport_jobs}
use sosreport_operator.Controller.Run.Restart.{restarted, lists_survive_restart}
use sosreport_operator.Controller.Reconcile.{reconcile}
use sosreport_operator.Controller.Lifecycle.{Tracked}
use sosreport_operator.Controller.Lifecycle.Call.{reconcile-Advanced}
use sosreport_operator.Controller.Lifecycle.Steps.{Advanced}
use sosreport_operator.Controller.Template.Works.{WorkingTemplate}
use sosreport_operator.Controller.Run.Effect.{Ran}
use sosreport_operator.Controller.Frame.Log.{logged}
use sosreport_operator.Controller.Run.Created.{Created}
use sosreport_operator.Controller.Run.Launches.{run_sosreport_jobs-Created, free_slots_get_jobs}
use sosreport_operator.Tests.{
  program, template, request, report, cluster, cluster_range, cluster_sets, ready, first_running,
  next_state, both_done,
}
use sosreport_operator.Tests.States.{waiting, ran, ready_identity, ready_template}

abbrev ready_annotations : UpdateKeepsAnnotations ready
ready_annotations = record { annotations = λ s w. refl }

lists_survive_restart_example :
    let back = synchronize_job_running_cache ready (restarted ran []) in
    (back.0 ≡ done none)
    × (back.1.w ≡ [])
    × ((k : String) → holds back.1.r.job_to_run_list "u1" k ≡ holds ran.r.job_to_run_list "u1" k)
    × ((k : String) → holds back.1.r.job_running_list "u1" k ≡ holds ran.r.job_running_list "u1" k)
unfolding program
lists_survive_restart_example =
    lists_survive_restart ready ready_identity ready_annotations request waiting []
      {x = (true, none)} refl

-- the cluster says that the jobs of both nodes are done
abbrev pub done_cluster : Env
done_cluster = cluster report both_done true

abbrev pub done_identity : UpdateKeepsIdentity done_cluster
done_identity = record { uid = λ s w. refl; name = λ s w. refl }

-- one job runs, one node waits
abbrev pub under_way : State done_cluster
under_way = next_state both_done first_running.r

abbrev pub one_more : State done_cluster
one_more = (reconcile done_cluster request under_way).1

pub apart :
    (k : String)
    → (has {V = Unit {0}} (made (("node-b", tt) ∷ [])) k
        && has {V = Unit {0}} (made (("node-a", tt) ∷ [])) k)
      ≡ false
unfolding get entries find
apart k = elim (Bool-cases ("node-a" == k)) [
  | inl e ↦ let same : "node-a" ≡ k = (eq_iff "node-a" k).0 e in rw (← same) refl
  | inr e ↦ ground (arith, e)
]

pub under_way-Tracked : Tracked "u1" under_way.r
unfolding program
under_way-Tracked = record { listed = refl; to_run = refl; running = refl; exclusive = apart }

reconcile-Advanced_example : Advanced "u1" under_way.r one_more.r
unfolding program
reconcile-Advanced_example =
    reconcile-Advanced done_cluster (cluster_range report both_done true) done_identity "u1" request
      under_way {x = none} under_way-Tracked refl

abbrev ready_creates : CreatesObjects ready
ready_creates = record { pvc = λ p w. refl; job = λ j w. refl }

abbrev ready_works : WorkingTemplate ready "sosreport.yaml"
ready_works = record {
  found = λ w. refl;
  file = λ w. ("kind: Job", "kind: Job", template, refl, refl, refl, (_, [], refl));
}

-- the same state with an empty log
abbrev watched : State (logged ready)
watched = record { r = waiting.r; s = waiting.s; w = ([], []) }

abbrev launched : State (logged ready)
launched = (run_sosreport_jobs (logged ready) request watched).1

run_sosreport_jobs-Created_example :
    (started : List String) × Ran watched.r launched.r "u1" started
    × Created "u1" [] launched.w.1 started
unfolding program
run_sosreport_jobs-Created_example =
    run_sosreport_jobs-Created ready (cluster_range report [] true) (cluster_sets report [] true)
      request watched {x = (true, none)} refl

free_slots_get_jobs_example :
    ((run_sosreport_jobs (logged ready) request watched).0 ≡ done (true, none))
    × ((started : List String) × Ran watched.r launched.r "u1" started
        × Created "u1" [] launched.w.1 started
        × (length started ≡ min 1 2))
unfolding program
free_slots_get_jobs_example =
    free_slots_get_jobs ready (cluster_range report [] true) (cluster_sets report [] true) request
      ready_creates ready_template ready_works watched 1 (omega arith) refl refl refl refl
      (omega arith) (omega arith)
