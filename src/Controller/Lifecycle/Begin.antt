-- ===== src/Controller/Lifecycle/Begin.antt =====
-- The start of one Sosreport in Reconcile of controllers/sosreport_controller.go leaves the lists of
-- the others alone.
use sosreport_operator.Prelude.{
  String, ◌≡◌, refl, Bool, false, Option, none, some, List, [], ◌∷◌, arith, ◌==◌, ◌∙◌,
}
use sosreport_operator.GoMap.{GoMap, NodeSet, get, assign}
use sosreport_operator.GoMap.Laws.{get-assign}
use sosreport_operator.GoMap.Sets.{has-assign}
use sosreport_operator.Exec.{Exec, ◌>>◌}
use sosreport_operator.Exec.Rules.{Keeps, Keeps-bind}
use sosreport_operator.Api.{Node, NamespacedName}
use sosreport_operator.Env.{Env, Error, Result, ok, err, UpdateKeepsIdentity}
use sosreport_operator.Controller.State.{SosreportReconciler, State, return}
use sosreport_operator.Controller.Frame.Reconciler.{
  AtReconciler, AtReconciler-return, AtReconciler-update_status,
}
use sosreport_operator.Controller.Frame.Fits.{
  Fits, Ends, Ends-Fits, Ends-bind, Fits-Ends, Ends-get_r, Ends-get_s, Ends-or_crash, Fits-set_r,
  Fits-set_s, Fits-return, Fits-call, Fits-update,
}
use sosreport_operator.Controller.Schedule.{schedule_on, schedule_sosreport_jobs, make_annotations}
use sosreport_operator.Controller.Update.{update_status}
use sosreport_operator.Controller.Reconcile.{start, after_schedule, set_in_progress}
use sosreport_operator.Controller.Lifecycle.{Trimmed}
use sosreport_operator.Controller.Lifecycle.Trim.{made_uid, annotate_uid}

module _ (v : String) (r₀ : SosreportReconciler) (uid : String) (other : (uid == v) ≡ false) where
  abbrev Now : SosreportReconciler → Type 0
  Now r = Trimmed v r₀ r

  listed_now :
      (r : SosreportReconciler) (m : NodeSet)
      → Now r
      → assign r.run_list uid tt ≡ some m
      → Now (record r { run_list = m })
  listed_now r m now h = record {
    listed = ground (arith, has-assign r.run_list uid tt v h, other, now.listed);
    to_run = now.to_run;
    running = now.running;
    waits = now.waits;
    runs = now.runs;
  }

  scheduled_now :
      (r : SosreportReconciler) (names : NodeSet) (m : GoMap NodeSet)
      → Now r
      → assign r.job_to_run_list uid names ≡ some m
      → Now (record r { job_to_run_list = m })
  scheduled_now r names m now h =
      let same : get m v ≡ get r.job_to_run_list v =
        ground (arith, get-assign r.job_to_run_list uid names v h, other) in
      record {
        listed = now.listed;
        to_run = ground (arith, same, now.to_run);
        running = now.running;
        waits = λ k. ground (arith, same, now.waits k);
        runs = now.runs;
      }

  module _ {e : Env} (identity : UpdateKeepsIdentity e) (req : NamespacedName) where
    abbrev Fit : State e → Type 0
    Fit = Fits {e = e} Now uid

    fit : (st : State e) → Fit st → Fit st
    fit st h = h

    Fits-schedule_on : (nodes : Result (List Node)) → Keeps Fit (schedule_on e req nodes)
    unfolding schedule_on
    Fits-schedule_on (err x) = Fits-return _ _ _
    Fits-schedule_on (ok []) = Fits-return _ _ _
    Fits-schedule_on (ok (n ∷ ns)) = Ends-Fits _ _ _ (
        Ends-get_s _ _ _ _ λ s own. Ends-or_crash _ _ _ _ _ fit λ names named.
          Ends-get_r _ _ _ _ λ r now. Ends-or_crash _ _ _ _ _ fit λ lists is.
            Ends-bind _ _ _ _ _ fit
              (Fits-set_r _ _ _ (scheduled_now r names lists now (rw own at is)))
              λ _. Ends-or_crash _ _ _ _ _ fit λ s' is'. Fits-Ends _ _ _ _ fit (
                Keeps-bind _ _
                  (Fits-set_s _ _ _
                    (annotate_uid (make_annotations s) s' _ _ is' ∙ made_uid s ∙ own))
                  λ _. Keeps-bind _ _ (Fits-update _ _ identity req) λ _. Fits-return _ _ _))

    Fits-schedule_sosreport_jobs : Keeps Fit (schedule_sosreport_jobs e req)
    unfolding schedule_sosreport_jobs
    Fits-schedule_sosreport_jobs = Ends-Fits _ _ _ (
        Ends-get_s _ _ _ _ λ s own.
          Fits-Ends _ _ _ _ fit (Keeps-bind _ _ (Fits-call _ _ _) λ nodes. Fits-schedule_on nodes))

    abbrev NowAt : State e → Type 0
    NowAt st = Now st.r

    weak : (st : State e) → Fit st → NowAt st
    weak st h = h.reconciler

    report : Option Error → Exec (State e) (Option Error)
    report failed = elim failed [
      | some x ↦ return (some x)
      | none ↦ do update_status e req; return none
    ]

    AtReconciler-report :
        (r : SosreportReconciler) (failed : Option Error)
        → Keeps (AtReconciler {e = e} r) (report failed)
    unfolding report
    AtReconciler-report r (some x) = AtReconciler-return r _
    AtReconciler-report r none =
        Keeps-bind _ _ (AtReconciler-update_status r req) λ _. AtReconciler-return r none

    reported : (failed : Option Error) → Ends Now uid NowAt (report failed)
    reported failed = record {
      at = λ st h.
          rw (((AtReconciler-report st.r failed).at st (record { reconciler = refl })).reconciler)
            (h.reconciler);
    }

    scheduled : (x : Bool × Option Error) → Ends Now uid NowAt (after_schedule e req x)
    unfolding after_schedule set_in_progress report
    scheduled (progress, failed) =
        Ends-get_s _ _ _ _
          λ s own. Ends-bind _ _ _ _ _ weak (Fits-set_s _ _ _ own) λ _. reported failed

    -- The start of a Sosreport leaves the lists of another one as they are.
    pub Ends-start : Ends Now uid NowAt (start e req)
    unfolding start
    Ends-start = Ends-get_r _ _ _ _ λ r now. Ends-get_s _ _ _ _ λ s own.
        Ends-or_crash _ _ _ _ _ weak λ m is.
          Ends-bind _ _ _ _ _ weak (Fits-set_r _ _ _ (listed_now r m now (rw own at is)))
            λ _. Ends-bind _ _ _ _ _ weak Fits-schedule_sosreport_jobs λ x. scheduled x
