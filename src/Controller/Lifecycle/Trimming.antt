-- ===== src/Controller/Lifecycle/Trimming.antt =====
-- dequeueSosreportJobsDone of controllers/sosreport_controller.go only takes nodes of a Sosreport from
-- its running list.
use sosreport_operator.Prelude.{String, none, List, [], ◌∷◌, ◌∙◌}
use sosreport_operator.Exec.Rules.{Keeps, Keeps-bind, Keeps-if}
use sosreport_operator.Api.{Job, NamespacedName}
use sosreport_operator.Env.{Env, Result, ok, err, UpdateKeepsIdentity}
use sosreport_operator.Controller.State.{SosreportReconciler, State}
use sosreport_operator.Controller.Frame.{At-get_sosreport_jobs}
use sosreport_operator.Controller.Frame.Fits.{
  Fits, Ends-Fits, Ends-bind, Ends-if, Fits-Ends, Ends-get_r, Ends-get_s, Ends-or_crash, Fits-set_r,
  Fits-set_s, Fits-return, Fits-call, Fits-At, Fits-update,
}
use sosreport_operator.Controller.Schedule.{make_annotations}
use sosreport_operator.Controller.Select.{is_job_done}
use sosreport_operator.Controller.Track.{
  node_of, retire_job, dequeue_job, dequeue_loop, annotate_running, dequeue_all,
  dequeue_sosreport_jobs_done,
}
use sosreport_operator.Controller.Lifecycle.{Trimmed}
use sosreport_operator.Controller.Lifecycle.Trim.{made_uid, annotate_uid, finish_node_now}

module _ (v : String) (r₀ : SosreportReconciler) where
  -- the lists as they are after some nodes have left
  abbrev Now : SosreportReconciler → Type 0
  Now r = Trimmed v r₀ r

  module _ {e : Env} (uid : String) where
    abbrev Fit : State e → Type 0
    Fit = Fits {e = e} Now uid

    fit : (st : State e) → Fit st → Fit st
    fit st h = h

    Fits-retire_job : (j : Job) → Keeps Fit (retire_job e j)
    unfolding retire_job
    Fits-retire_job j = Ends-Fits _ _ _ (
        Ends-get_r _ _ _ _ λ r now. Ends-get_s _ _ _ _ λ s own.
          Ends-if _ _ _ _ _ _
            (Fits-Ends _ _ _ _ fit (
              Keeps-bind _ _ (Fits-call _ _ _)
                λ _. Fits-set_r _ _ _ (finish_node_now v r₀ s.metadata.uid (node_of j) r now)))
            (Fits-Ends _ _ _ _ fit (Fits-return _ _ _)))

    Fits-dequeue_loop : (js : List Job) → Keeps Fit (dequeue_loop e js)
    unfolding dequeue_loop dequeue_job
    Fits-dequeue_loop [] = Fits-return _ _ _
    Fits-dequeue_loop (j ∷ js) =
        Keeps-bind _ (λ _. dequeue_loop e js)
          (Keeps-if (is_job_done j.conditions).0 _ _ (Fits-retire_job j) (Fits-return _ _ tt))
          λ _. Fits-dequeue_loop js

    Fits-annotate_running :
        UpdateKeepsIdentity e → (req : NamespacedName) → Keeps Fit (annotate_running e req)
    unfolding annotate_running
    Fits-annotate_running identity req = Ends-Fits _ _ _ (
        Ends-get_r _ _ _ _ λ r now. Ends-get_s _ _ _ _ λ s own.
          Ends-bind _ _ _ _ _ fit (Fits-set_s _ _ _ (made_uid s ∙ own)) λ _.
            Ends-if _ _ _ _ _ _ (Fits-Ends _ _ _ _ fit (Fits-return _ _ _)) (
              Ends-or_crash _ _ _ _ _ fit λ s' is. Fits-Ends _ _ _ _ fit (
                Keeps-bind _ _
                  (Fits-set_s _ _ _
                    (annotate_uid (make_annotations s) s' _ _ is ∙ made_uid s ∙ own))
                  λ _. Fits-update _ _ identity req)))

    Fits-dequeue_all :
        UpdateKeepsIdentity e
        → (req : NamespacedName) (js : Result (List Job)) → Keeps Fit (dequeue_all e req js)
    unfolding dequeue_all
    Fits-dequeue_all identity req (err x) = Fits-return _ _ _
    Fits-dequeue_all identity req (ok js) =
        Keeps-bind _ _ (Fits-dequeue_loop js)
          λ _. Keeps-bind _ _ (Fits-annotate_running identity req) λ _. Fits-return _ _ none

    pub Fits-dequeue_sosreport_jobs_done :
        UpdateKeepsIdentity e
        → (req : NamespacedName) → Keeps Fit (dequeue_sosreport_jobs_done e req)
    unfolding dequeue_sosreport_jobs_done
    Fits-dequeue_sosreport_jobs_done identity req =
        Keeps-bind _ _ (Fits-At _ _ _ λ r s. At-get_sosreport_jobs r s req)
          (Fits-dequeue_all identity req)
