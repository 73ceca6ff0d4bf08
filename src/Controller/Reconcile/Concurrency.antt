-- ===== src/Controller/Reconcile/Concurrency.antt =====
-- The concurrency over a whole call of Reconcile of controllers/sosreport_controller.go.
use Prim.Native.Nat.{max}
use sosreport_operator.Prelude.{
  ℕ, ◌≤◌, ◌<◌, ◌≡◌, refl, ap, Bool, true, Option, none, some, arith, ◌∙◌, pos, two63,
}
use sosreport_operator.GoMap.{get_map, len, has}
use sosreport_operator.Exec.{done, Exec, ◌>>=◌}
use sosreport_operator.Exec.Rules.{Keeps, Keeps-bind, bind-returns, bind_of_done}
use sosreport_operator.Api.{NamespacedName}
use sosreport_operator.Env.{Env, Error, RangeIsPerm, UpdateKeepsIdentity}
use sosreport_operator.Controller.State.{State, return, actions}
use sosreport_operator.Controller.Frame.Reconciler.{
  AtReconciler, AtReconciler-return, AtReconciler-update_status,
}
use sosreport_operator.Controller.Track.{
  load_annotation, load_job_to_run_list, load_job_running_list, synchronize_job_running_cache,
  dequeue_sosreport_jobs_done,
}
use sosreport_operator.Controller.Track.Bounded.{Bounded, Bounded-dequeue_sosreport_jobs_done}
use sosreport_operator.Controller.Run.{run_sosreport_jobs}
use sosreport_operator.Controller.Run.Bound.{concurrency_respected}
use sosreport_operator.Controller.Reconcile.{progress, conclude, settle}
use sosreport_operator.Controller.Reconcile.Branches.{settle_lem}

module _ (e : Env) where
  -- An operator that was not restarted keeps its caches.
  pub synchronized :
      (st : State e)
      → has st.r.job_to_run_list st.s.metadata.uid ≡ true
      → has st.r.job_running_list st.s.metadata.uid ≡ true
      → synchronize_job_running_cache e st ≡ (done none, st)
  unfolding synchronize_job_running_cache load_annotation load_job_to_run_list load_job_running_list
      actions
  synchronized st a b = ground (arith, a, b)

  settle-AtReconciler :
      (req : NamespacedName) (st : State e) → Keeps (AtReconciler {e = e} st.r) (settle e)
  settle-AtReconciler req st = record {
    at = λ st' h.
        let (ran, kept, fin, inp) = settle_lem e req st' in
        record { reconciler = kept ∙ h.reconciler };
  }

  conclude-AtReconciler :
      (req : NamespacedName) (st : State e) → Keeps (AtReconciler {e = e} st.r) (conclude e req)
  unfolding conclude
  conclude-AtReconciler req st =
      Keeps-bind _ _ (settle-AtReconciler req st)
        λ _. Keeps-bind _ _ (AtReconciler-update_status st.r req) λ _. AtReconciler-return st.r none

  abbrev pub after_run : NamespacedName → Bool × Option Error → Exec (State e) (Option Error)
  after_run req x = elim x.1 [ some y ↦ return (some y) | none ↦ conclude e req ]

  pub after_run-AtReconciler :
      (req : NamespacedName) (x : Bool × Option Error) (st : State e)
      → (after_run req x st).1.r ≡ st.r
  after_run-AtReconciler req (b, some y) st =
      ((AtReconciler-return st.r (some y)).at st (record { reconciler = refl })).reconciler
  after_run-AtReconciler req (b, none) st =
      ((conclude-AtReconciler req st).at st (record { reconciler = refl })).reconciler

  -- the steps of the branch after the caches are synchronized
  dequeue_and_run-Bounded :
      RangeIsPerm e
      → UpdateKeepsIdentity e
      → (req : NamespacedName) (st : State e) (c n : ℕ) {x : Option Error} → c < two63
      → n < two63
      → Bounded st.s.metadata.uid n (pos c) st
      → ((dequeue_sosreport_jobs_done e req >>= λ dequeued.
            run_sosreport_jobs e req >>= after_run req)
          st).0
        ≡ done x
      → len (
          get_map
            ((dequeue_sosreport_jobs_done e req >>= λ dequeued.
                run_sosreport_jobs e req >>= after_run req)
              st).1.r.job_running_list
            st.s.metadata.uid)
        ≤ max c n
  dequeue_and_run-Bounded law identity req st c n small few bounded h =
      let uid = st.s.metadata.uid in
      let (d, ran₁, rest₁) =
        bind-returns (dequeue_sosreport_jobs_done e req)
          (λ dequeued. run_sosreport_jobs e req >>= after_run req) st h in
      let st₁ = (dequeue_sosreport_jobs_done e req st).1 in
      let b = (Bounded-dequeue_sosreport_jobs_done identity uid n (pos c) req).at st bounded in
      let (y, ran₂, rest₂) =
        bind-returns (run_sosreport_jobs e req) (after_run req) st₁ (rw rest₁ at h) in
      let st₂ = (run_sosreport_jobs e req st₁).1 in
      let few₁ : len (get_map st₁.r.job_running_list st₁.s.metadata.uid) ≤ n =
        rw b.same b.running in
      let respected =
        concurrency_respected e law req st₁ c b.concurrency small (omega (arith, few, few₁)) ran₂ in
      let respected' = rw b.same at respected in
      let final : len (get_map st₂.r.job_running_list uid) ≤ max c n =
        omega (arith, respected', b.running) in
      rw (rest₁, rest₂, after_run-AtReconciler req y st₂) final

  -- Reconcile's branch for a started Sosreport keeps to the concurrency: if it returns, the operator
  -- was not restarted, so that both caches have an entry for the Sosreport, and the concurrency is
  -- `c`, then afterwards no more jobs of the Sosreport run than `c` or than ran before, whichever is
  -- more. This assumes that a range visits every entry of a map once, that the answer to an update
  -- describes the same object, and that both numbers fit Go's `int`.
  pub progress_respects_concurrency :
      RangeIsPerm e
      → UpdateKeepsIdentity e
      → (req : NamespacedName) (st : State e) (c : ℕ) {x : Option Error}
      → has st.r.job_to_run_list st.s.metadata.uid ≡ true
      → has st.r.job_running_list st.s.metadata.uid ≡ true
      → st.r.sosreport_concurrency ≡ pos c
      → c < two63
      → len (get_map st.r.job_running_list st.s.metadata.uid) < two63
      → (progress e req st).0 ≡ done x
      → len (get_map (progress e req st).1.r.job_running_list st.s.metadata.uid)
        ≤ max c (len (get_map st.r.job_running_list st.s.metadata.uid))
  unfolding progress
  progress_respects_concurrency law identity req st c to_run running conc small few h =
      let rest = λ (synced : Option Error). dequeue_sosreport_jobs_done e req >>= λ dequeued.
      run_sosreport_jobs e req >>= after_run req in
      let skip = synchronized st to_run running in
      let same : progress e req st ≡ rest none st =
        bind_of_done (synchronize_job_running_cache e) rest st (ap (λ x. x.0) skip)
        ∙ ap (λ x. rest none x.1) skip in
      rw same (
        dequeue_and_run-Bounded law identity req st c _ small few
          (record { same = refl; running = omega arith; concurrency = conc }) (rw same at h))
