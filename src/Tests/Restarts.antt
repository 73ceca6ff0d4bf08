-- ===== src/Tests/Restarts.antt =====
-- A restart of the operator at a concrete input: one job runs and one node waits.
use sosreport_operator.Prelude.{◌≢◌, refl, true, none, some, [], ◌∷◌, arith}
use sosreport_operator.GoMap.{made}
use sosreport_operator.Api.{Sosreport}
use sosreport_operator.Env.{Env, UpdateKeepsIdentity, UpdateKeepsAnnotations}
use sosreport_operator.Controller.State.{State}
use sosreport_operator.Controller.Template.Total.{SoundTemplate}
use sosreport_operator.Controller.Reconcile.{reconcile}
use sosreport_operator.Controller.Lifecycle.Reload.{Annotated}
use sosreport_operator.Controller.Lifecycle.Resume.{GoesOn, reconcile-GoesOn}
use sosreport_operator.Tests.{program, request, report, cluster, cluster_range, both_done, fresh}
use sosreport_operator.Tests.Lives.{under_way, under_way-Tracked}

-- the Sosreport as the last call before the restart has sent it
abbrev kept_report : Sosreport
kept_report = record report {
  metadata = record (report.metadata) {
    annotations =
        made
          (("job-to-run-list", "{\"node-b\":{}}") ∷ ("job-running-list", "{\"node-a\":{}}") ∷ []);
  };
  status = record (report.status) { in_progress = true };
}

abbrev kept_cluster : Env
kept_cluster = cluster kept_report both_done true

abbrev kept_identity : UpdateKeepsIdentity kept_cluster
kept_identity = record { uid = λ s w. refl; name = λ s w. refl }

abbrev kept_annotations : UpdateKeepsAnnotations kept_cluster
kept_annotations = record { annotations = λ s w. refl }

abbrev kept_template : SoundTemplate kept_cluster "sosreport.yaml"
kept_template = record { sound = λ dir yaml json w read parsed. (_, [], refl) }

abbrev started_again : State kept_cluster
started_again = record { r = fresh; s = report; w = [] }

kept_lists : Annotated kept_report under_way.r
unfolding program
kept_lists = record { to_run = refl; running = refl }

named : some true ≢ none
named h = cc

reconcile-GoesOn_example :
    GoesOn kept_cluster "u1" under_way.r (reconcile kept_cluster request started_again)
unfolding program
reconcile-GoesOn_example =
    reconcile-GoesOn kept_cluster (cluster_range kept_report both_done true) kept_identity
      kept_annotations kept_template request started_again kept_report [] under_way.r both_done refl
      refl refl refl refl kept_lists under_way-Tracked.exclusive (omega arith)
      (λ w'. ("10Gi", refl)) (λ w'. refl) ((named, tt), ((named, tt), tt))
