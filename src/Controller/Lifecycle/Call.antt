-- ===== src/Controller/Lifecycle/Call.antt =====
-- What a call of Reconcile of controllers/sosreport_controller.go does to the nodes of a Sosreport
-- that was started.
use sosreport_operator.Prelude.{
  String, ◌≡◌, refl, ap, true, false, ◌||◌, Option, none, arith, ◌==◌, ◌∙◌, Bool-cases, inl, inr,
  eq_iff,
}
use sosreport_operator.GoMap.{has, or_nil, is_some}
use sosreport_operator.GoMap.Entries.{get-or_made}
use sosreport_operator.Exec.{done, ◌>>=◌}
use sosreport_operator.Exec.Rules.{bind-returns, bind_of_done}
use sosreport_operator.Api.{Sosreport, NamespacedName}
use sosreport_operator.Env.{Env, Error, Result, ok, err, RangeIsPerm, UpdateKeepsIdentity}
use sosreport_operator.Controller.State.{SosreportReconciler, State, actions}
use sosreport_operator.Controller.Frame.Fits.{Fits}
use sosreport_operator.Controller.Track.{synchronize_job_running_cache, dequeue_sosreport_jobs_done}
use sosreport_operator.Controller.Run.{run_sosreport_jobs}
use sosreport_operator.Controller.Run.Effect.{run_sosreport_jobs-Ran}
use sosreport_operator.Controller.Reconcile.{
  progress, dispatch, configure, reconcile, reconcile_found,
}
use sosreport_operator.Controller.Reconcile.Branches.{dispatch_started, dispatch_new}
use sosreport_operator.Controller.Reconcile.Configure.{configure_lem}
use sosreport_operator.Controller.Reconcile.Concurrency.{after_run, after_run-AtReconciler}
use sosreport_operator.Controller.Lifecycle.{Tracked, Trimmed}
use sosreport_operator.Controller.Lifecycle.Trim.{Trimmed-refl}
use sosreport_operator.Controller.Lifecycle.Tracking.{Fits-synchronize_job_running_cache}
use sosreport_operator.Controller.Lifecycle.Trimming.{Fits-dequeue_sosreport_jobs_done}
use sosreport_operator.Controller.Lifecycle.Begin.{Ends-start}
use sosreport_operator.Controller.Lifecycle.Steps.{Advanced, Trimmed-Advanced, Ran-Advanced}

module _ (e : Env) (law : RangeIsPerm e) (identity : UpdateKeepsIdentity e) where
  progress-Advanced :
      (v : String) (r : SosreportReconciler) (req : NamespacedName) (st : State e)
      {x : Option Error}
      → Tracked v r
      → Trimmed v r st.r
      → (progress e req st).0 ≡ done x
      → Advanced v r (progress e req st).1.r
  unfolding progress
  progress-Advanced v r req st known trimmed h =
      let uid = st.s.metadata.uid in
      let (synced, ran₁, rest₁) =
        bind-returns (synchronize_job_running_cache e)
          (λ synced. dequeue_sosreport_jobs_done e req >>= λ dequeued.
            run_sosreport_jobs e req >>= after_run e req)
          st h in
      let st₁ = (synchronize_job_running_cache e st).1 in
      let fits₁ =
        (Fits-synchronize_job_running_cache v r known uid).at st
          (record { reconciler = trimmed; same = refl }) in
      let h₁ = rw rest₁ at h in
      let (dequeued, ran₂, rest₂) =
        bind-returns (dequeue_sosreport_jobs_done e req)
          (λ dequeued. run_sosreport_jobs e req >>= after_run e req) st₁ h₁ in
      let st₂ = (dequeue_sosreport_jobs_done e req st₁).1 in
      let fits₂ = (Fits-dequeue_sosreport_jobs_done v r uid identity req).at st₁ fits₁ in
      let h₂ = rw rest₂ at h₁ in
      let (y, ran₃, rest₃) = bind-returns (run_sosreport_jobs e req) (after_run e req) st₂ h₂ in
      let (new, ran) = run_sosreport_jobs-Ran e law req st₂ ran₃ in
      rw (rest₁, rest₂, rest₃, after_run-AtReconciler e req y (run_sosreport_jobs e req st₂).1)
        (Ran-Advanced v st₂.s.metadata.uid r st₂.r _ new known fits₂.reconciler ran)

  dispatch-Advanced :
      (v : String) (r : SosreportReconciler) (req : NamespacedName) (st : State e)
      {x : Option Error}
      → Tracked v r
      → Trimmed v r st.r
      → (dispatch e req st).0 ≡ done x
      → Advanced v r (dispatch e req st).1.r
  dispatch-Advanced v r req st known trimmed h =
      let uid = st.s.metadata.uid in
      elim (Bool-cases (has st.r.run_list uid || st.s.status.in_progress)) [
        | inl old ↦
            let same = dispatch_started e req st old in
            rw same (progress-Advanced v r req st known trimmed (rw same at h))
        | inr new ↦
            let same = dispatch_new e req st new in
            let other : (uid == v) ≡ false =
              ground (arith, new, eq_iff uid v, trimmed.listed, known.listed) in
            let fits : Fits {e = e} (Trimmed v r) uid st = record {
              reconciler = trimmed;
              same = refl;
            } in
            rw same
              (Trimmed-Advanced v r _ known ((Ends-start v r uid other identity req).at st fits))
      ]

  -- the configuration makes maps that are nil
  pub configured :
      (v : String) (req : NamespacedName) (st : State e) → Trimmed v st.r (configure e req st).1.r
  configured v req st =
      let (ran, own, runs, to_runs, runnings, settings) = configure_lem e req st in
      record {
        listed = rw runs (ap is_some (get-or_made st.r.run_list v));
        to_run = rw to_runs (ap is_some (get-or_made st.r.job_to_run_list v));
        running = rw runnings (ap is_some (get-or_made st.r.job_running_list v));
        waits = λ k. rw to_runs (ap (λ x. has (or_nil x) k) (get-or_made st.r.job_to_run_list v));
        runs = λ k. rw runnings (ground (arith, get-or_made st.r.job_running_list v));
      }

  found_unfinished :
      (req : NamespacedName) (s : Sosreport) (st : State e)
      → s.status.finished ≡ false
      → reconcile_found e req (ok s) st
        ≡ (configure e req >>= λ _. dispatch e req) (record st { s = s })
  unfolding reconcile_found actions
  found_unfinished req s st h = ground (arith, h)

  found_finished :
      (req : NamespacedName) (s : Sosreport) (st : State e)
      → s.status.finished ≡ true
      → reconcile_found e req (ok s) st ≡ (done none, record st { s = s })
  unfolding reconcile_found actions
  found_finished req s st h = ground (arith, h)

  reconcile_found-Advanced :
      (v : String) (req : NamespacedName) (found : Result Sosreport) (st : State e)
      {x : Option Error}
      → Tracked v st.r
      → (reconcile_found e req found st).0 ≡ done x
      → Advanced v st.r (reconcile_found e req found st).1.r
  unfolding reconcile_found actions
  reconcile_found-Advanced v req (err x) st known h =
      Trimmed-Advanced v _ _ known (Trimmed-refl v st.r)
  reconcile_found-Advanced v req (ok s) st known h = elim (Bool-cases s.status.finished) [
    | inl a ↦ rw (found_finished req s st a) (Trimmed-Advanced v _ _ known (Trimmed-refl v st.r))
    | inr a ↦
        let st₁ : State e = record st { s = s } in
        let ran = (configure_lem e req st₁).0 in
        let same =
          found_unfinished req s st a
          ∙ bind_of_done (configure e req) (λ _. dispatch e req) st₁ ran in
        rw same (
          dispatch-Advanced v st.r req (configure e req st₁).1 known (configured v req st₁)
            (rw same at h))
  ]

  reconcile_lem :
      (v : String) (req : NamespacedName) (st : State e) {x : Option Error}
      → Tracked v st.r
      → (reconcile e req st).0 ≡ done x
      → Advanced v st.r (reconcile e req st).1.r
  unfolding reconcile actions
  reconcile_lem v req st known h =
      reconcile_found-Advanced v req (e.get_sosreport req st.w).0
        (record st { w = (e.get_sosreport req st.w).1 }) known h

-- A call of Reconcile, for this or another Sosreport, that returns refines the life of a node: a
-- Sosreport that is tracked, with no node on both its lists, stays so, and each of its nodes stays in
-- its phase or goes one phase on, from waiting to running or from running to over. This assumes that
-- a range visits every entry of a map once and that the answer to an update describes the same object.
pub reconcile-Advanced :
    (e : Env)
    → RangeIsPerm e
    → UpdateKeepsIdentity e
    → (v : String) (req : NamespacedName) (st : State e) {x : Option Error} → Tracked v st.r
    → (reconcile e req st).0 ≡ done x
    → Advanced v st.r (reconcile e req st).1.r
reconcile-Advanced e law identity v req st known h = reconcile_lem e law identity v req st known h
