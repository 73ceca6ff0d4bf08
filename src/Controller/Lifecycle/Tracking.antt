-- ===== src/Controller/Lifecycle/Tracking.antt =====
-- synchronizeJobRunningCache of controllers/sosreport_controller.go leaves the lists of a tracked
-- Sosreport as they are.
use sosreport_operator.Prelude.{String, ◌≡◌, refl, Option, none, some, ◌∙◌}
use sosreport_operator.GoMap.{get}
use sosreport_operator.Exec.Rules.{Keeps, Keeps-bind}
use sosreport_operator.Env.{Env, Error}
use sosreport_operator.Controller.State.{SosreportReconciler, State, return}
use sosreport_operator.Controller.Frame.Fits.{
  Fits, Ends-Fits, Fits-Ends, Ends-get_r, Ends-get_s, Ends-or_crash, Fits-set_r, Fits-return,
}
use sosreport_operator.Controller.Track.{
  Loaded, loaded, unreadable, load_annotation, load_job_to_run_list, load_job_running_list,
  synchronize_job_running_cache,
}
use sosreport_operator.Controller.Track.Cache.{load_kept}
use sosreport_operator.Controller.Lifecycle.{Trimmed, Tracked}
use sosreport_operator.Controller.Lifecycle.Trim.{to_run_loaded, running_loaded}

module _ (v : String) (r₀ : SosreportReconciler) (known : Tracked v r₀) where
  -- the lists as they are after some nodes have left
  abbrev Now : SosreportReconciler → Type 0
  Now r = Trimmed v r₀ r

  module _ {e : Env} (uid : String) where
    abbrev Fit : State e → Type 0
    Fit = Fits {e = e} Now uid

    fit : (st : State e) → Fit st → Fit st
    fit st h = h

    load_to_run :
        (u : String) (r : SosreportReconciler) (annotation : Option String)
        → Now r
        → Keeps Fit (load_job_to_run_list e (load_annotation r.job_to_run_list u annotation))
    unfolding load_job_to_run_list
    load_to_run u r annotation now = go (load_annotation r.job_to_run_list u annotation) refl
      where
        go :
            (l : Loaded)
            → load_annotation r.job_to_run_list u annotation ≡ l
            → Keeps Fit (load_job_to_run_list e l)
        go unreadable is = Fits-return _ _ _
        go (loaded cache) is = Ends-Fits _ _ _ (
            Ends-or_crash _ _ _ cache _ fit λ m got. Ends-get_r _ _ _ _ λ r' now'.
              Fits-Ends _ _ _ _ fit (
                Keeps-bind _ _
                  (Fits-set_r _ _ _ (
                    to_run_loaded v r₀ r r' m now
                      (load_kept r.job_to_run_list u annotation v (now.to_run ∙ known.to_run)
                        (rw got at is))
                      now'))
                  λ _. Fits-return _ _ _))

    load_running :
        (u : String) (r : SosreportReconciler) (annotation : Option String)
        → Now r
        → Keeps Fit (load_job_running_list e (load_annotation r.job_running_list u annotation))
    unfolding load_job_running_list
    load_running u r annotation now = go (load_annotation r.job_running_list u annotation) refl
      where
        go :
            (l : Loaded)
            → load_annotation r.job_running_list u annotation ≡ l
            → Keeps Fit (load_job_running_list e l)
        go unreadable is = Fits-return _ _ _
        go (loaded cache) is = Ends-Fits _ _ _ (
            Ends-or_crash _ _ _ cache _ fit λ m got. Ends-get_r _ _ _ _ λ r' now'.
              Fits-Ends _ _ _ _ fit (
                Keeps-bind _ _
                  (Fits-set_r _ _ _ (
                    running_loaded v r₀ r r' m now
                      (load_kept r.job_running_list u annotation v (now.running ∙ known.running)
                        (rw got at is))
                      now'))
                  λ _. Fits-return _ _ _))

    load_second :
        (u : String) (r : SosreportReconciler) (annotation : Option String) (first : Option Error)
        → Now r
        → Keeps Fit (elim first [
          | some x ↦ return (some x)
          | none ↦ load_job_running_list e (load_annotation r.job_running_list u annotation)
        ])
    load_second u r annotation (some x) now = Fits-return _ _ _
    load_second u r annotation none now = load_running u r annotation now

    pub Fits-synchronize_job_running_cache : Keeps Fit (synchronize_job_running_cache e)
    unfolding synchronize_job_running_cache
    Fits-synchronize_job_running_cache = Ends-Fits _ _ _ (
        Ends-get_r _ _ _ _ λ r now. Ends-get_s _ _ _ _ λ s own. Fits-Ends _ _ _ _ fit (
          Keeps-bind _ _
            ((load_to_run s.metadata.uid r (get s.metadata.annotations "job-to-run-list") now))
            λ first.
              load_second s.metadata.uid r (get s.metadata.annotations "job-running-list") first
                now))
