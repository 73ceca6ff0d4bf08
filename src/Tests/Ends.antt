-- ===== src/Tests/Ends.antt =====
-- The last call of Reconcile of controllers/sosreport_controller.go at a concrete
-- input.
use sosreport_operator.Prelude.{String, ◌≡◌, ◌≢◌, some, refl, true, none, [], ◌∷◌, arith, contains}
use sosreport_operator.GoMap.{made, get, has, entries}
use sosreport_operator.GoMap.Assoc.{find}
use sosreport_operator.Exec.{done}
use sosreport_operator.Env.{UpdateKeepsAnnotations}
use sosreport_operator.Controller.Reconcile.{reconcile}
use sosreport_operator.Controller.Lifecycle.{Tracked}
use sosreport_operator.Controller.Lifecycle.Call.{reconcile-Advanced}
use sosreport_operator.Controller.Lifecycle.Conclude.{SentFinished}
use sosreport_operator.Controller.Lifecycle.Finish.{reconcile_completes}
use sosreport_operator.Controller.Track.Done.{IsEmpty}
use sosreport_operator.Tests.{program, request, report, cluster_range, both_done}
use sosreport_operator.Tests.Lives.{
  done_cluster, done_identity, under_way, one_more, under_way-Tracked,
}

one_more-Tracked : Tracked "u1" one_more.r
unfolding program
one_more-Tracked =
    (reconcile-Advanced done_cluster (cluster_range report both_done true) done_identity "u1"
      request under_way {x = none} under_way-Tracked refl).tracked

abbrev done_annotations : UpdateKeepsAnnotations done_cluster
done_annotations = record { annotations = λ s w. refl }

named : some true ≢ none
named h = cc

only_second :
    (k : String)
    → has {V = Unit {0}} (made (("node-b", tt) ∷ [])) k ≡ true
    → contains k ("node-a" ∷ "node-b" ∷ []) ≡ true
unfolding get entries find
only_second k h = ground arith

reconcile_completes_example :
    ((reconcile done_cluster request one_more).0 ≡ done none)
    × IsEmpty (reconcile done_cluster request one_more).1.r.job_to_run_list "u1"
    × IsEmpty (reconcile done_cluster request one_more).1.r.job_running_list "u1"
    × SentFinished (reconcile done_cluster request one_more).1
unfolding program
reconcile_completes_example =
    reconcile_completes done_cluster (cluster_range report both_done true) done_identity
      done_annotations request one_more report one_more.w both_done refl refl one_more-Tracked
      (λ w'. refl) ((named, tt), ((named, tt), tt)) (λ k. refl) only_second
