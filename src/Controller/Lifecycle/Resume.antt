-- ===== src/Controller/Lifecycle/Resume.antt =====
-- A restart of the operator between two calls of Reconcile of controllers/sosreport_controller.go.
use mathlib.Core.Path.{subst}
use sosreport_operator.Prelude.{
  ◌≤◌, String, ◌≡◌, ap, ◌∙◌, true, false, ◌&&◌, ◌||◌, count, Option, none, some, List, arith, All,
}
use sosreport_operator.GoMap.{NodeSet, made, get, has, is_some}
use sosreport_operator.GoMap.Entries.{get-or_made}
use sosreport_operator.GoMap.Sets.{holds}
use sosreport_operator.Exec.{Outcome, done, ◌>>=◌}
use sosreport_operator.Exec.Rules.{bind_of_done}
use sosreport_operator.Api.{Sosreport, Job, NamespacedName}
use sosreport_operator.Env.{
  Env, Error, ok, RangeIsPerm, UpdateKeepsIdentity, UpdateKeepsAnnotations,
}
use sosreport_operator.Controller.State.{
  SosreportReconciler, State, development_config_map_name, global_config_map_name,
}
use sosreport_operator.Controller.Config.Settings.{value_of, or_default}
use sosreport_operator.Controller.Select.Ownership.{HasControllers}
use sosreport_operator.Controller.Template.Total.{SoundTemplate}
use sosreport_operator.Controller.Track.{synchronize_job_running_cache, dequeue_sosreport_jobs_done}
use sosreport_operator.Controller.Track.Retired.{dequeue_sosreport_jobs_done-Dequeued}
use sosreport_operator.Controller.Run.{run_sosreport_jobs}
use sosreport_operator.Controller.Run.Effect.{run_sosreport_jobs-Ran}
use sosreport_operator.Controller.Run.Total.{run_sosreport_jobs_returns}
use sosreport_operator.Controller.Reconcile.{progress, reconcile, configure, dispatch}
use sosreport_operator.Controller.Reconcile.Branches.{dispatch_started}
use sosreport_operator.Controller.Reconcile.Call.{reached}
use sosreport_operator.Controller.Reconcile.Configure.{config_map, configure_lem}
use sosreport_operator.Controller.Reconcile.Concurrency.{after_run}
use sosreport_operator.Controller.Lifecycle.{phase, Advance}
use sosreport_operator.Controller.Lifecycle.Conclude.{made_of_has, conclude_returns}
use sosreport_operator.Controller.Lifecycle.Finish.{after_synchronized}
use sosreport_operator.Controller.Lifecycle.First.{or_made-made}
use sosreport_operator.Controller.Lifecycle.Reload.{Annotated, loads}
use sosreport_operator.Controller.Lifecycle.Steps.{Ran-phases, same_phase}
use sosreport_operator.Controller.Lifecycle.Trim.{Trimmed-refl}
use sosreport_operator.Controller.Lifecycle.Trimming.{Fits-dequeue_sosreport_jobs_done}

-- No node is on both lists of the Sosreport.
abbrev pub Exclusive : String → SosreportReconciler → Type 0
Exclusive uid r =
    (k : String) → (holds r.job_to_run_list uid k && holds r.job_running_list uid k) ≡ false

-- A call returns without an error, no node of the Sosreport is on both lists then, and each node is in
-- the phase that it has in the other reconciler, or one phase on.
pub record GoesOn (e : Env) (uid : String) (old : SosreportReconciler)
    (x : Outcome (Option Error) × State e) : Type 0 where
  pub returns : x.0 ≡ done none
  pub exclusive : Exclusive uid x.1.r
  pub advance : (k : String) → Advance (phase old uid k) (phase x.1.r uid k)

module _ (e : Env) (law : RangeIsPerm e) (identity : UpdateKeepsIdentity e)
    (keeps : UpdateKeepsAnnotations e) (sound : SoundTemplate e "sosreport.yaml")
    (req : NamespacedName) where
  -- the steps after the lists were loaded
  goes_on :
      (uid : String) (st : State e) (all : List Job) (w : e.World) {capacity : String}
      → st.s.metadata.uid ≡ uid
      → count st.s.metadata.name ≤ 43
      → e.parse_quantity st.r.pvc_capacity ≡ some capacity
      → e.list_jobs req.namespace st.w ≡ (ok all, w)
      → All HasControllers all
      → has st.r.job_running_list uid ≡ true
      → Exclusive uid st.r
      → GoesOn e uid st.r (after_synchronized e req st)
  goes_on uid st all w own short parsed listed controllers there exclusive =
      let (ran, named, gone) =
        dequeue_sosreport_jobs_done-Dequeued e identity keeps req st all w listed controllers in
      let st₁ = (dequeue_sosreport_jobs_done e req st).1 in
      let fits =
        (Fits-dequeue_sosreport_jobs_done uid st.r uid identity req).at st
          (record { reconciler = Trimmed-refl uid st.r; same = own }) in
      let (l, is) = made_of_has st₁.r.job_running_list uid (fits.reconciler.running ∙ there) in
      let ran' =
        run_sosreport_jobs_returns e req st₁ (rw named.same_name short)
          (ap (λ x. e.parse_quantity x.pvc_capacity) gone.others ∙ parsed) sound is named.is_made in
      let st₂ = (run_sosreport_jobs e req st₁).1 in
      let (new, moved) = run_sosreport_jobs-Ran e law req st₁ ran' in
      let (ran'', kept) = conclude_returns e req st₂ in
      let node = λ (k : String).
        Ran-phases uid st₁.s.metadata.uid st.r st₁.r st₂.r new k (exclusive k) fits.reconciler
          moved in
      let eq : after_synchronized e req st ≡ after_run e req (true, none) st₂ =
        bind_of_done (dequeue_sosreport_jobs_done e req)
          (λ dequeued. run_sosreport_jobs e req >>= after_run e req) st ran
        ∙ bind_of_done (run_sosreport_jobs e req) (after_run e req) st₁ ran' in
      rw eq (record {
        returns = ran'';
        exclusive = rw kept (λ k. (node k).0);
        advance = rw kept (λ k. (node k).1);
      })

  resumes :
      (st : State e) (old : SosreportReconciler) (all : List Job) {capacity : String}
      {l l' : List (String × NodeSet)}
      → st.r.job_to_run_list ≡ made l
      → st.r.job_running_list ≡ made l'
      → has st.r.job_to_run_list st.s.metadata.uid ≡ false
      → has st.r.job_running_list st.s.metadata.uid ≡ false
      → Annotated st.s old
      → Exclusive st.s.metadata.uid old
      → count st.s.metadata.name ≤ 43
      → e.parse_quantity st.r.pvc_capacity ≡ some capacity
      → ((w : e.World) → (e.list_jobs req.namespace w).0 ≡ ok all)
      → All HasControllers all
      → GoesOn e st.s.metadata.uid old (progress e req st)
  unfolding progress
  resumes st old all {l = l} {l' = l'} is is' absent absent' kept exclusive short parsed listed
        controllers =
      let uid = st.s.metadata.uid in
      let (ran, own, capacity', back) = loads e st old l l' is is' absent absent' kept in
      let st₁ = (synchronize_job_running_cache e st).1 in
      let w = (e.list_jobs req.namespace st₁.w).1 in
      let on =
        goes_on uid st₁ all w (ap (λ x. x.metadata.uid) own) (rw own short)
          (ap e.parse_quantity capacity' ∙ parsed) (ap (λ x. (x, w)) (listed st₁.w)) controllers
          back.entered (λ k. rw (back.to_run k, back.running k) (exclusive k)) in
      rw
        (bind_of_done (synchronize_job_running_cache e) (λ synced. after_synchronized e req) st ran)
        (record {
          returns = on.returns;
          exclusive = on.exclusive;
          advance = λ k. same_phase old st₁.r uid k (back.to_run k) (back.running k) (on.advance k);
        })

  resumes_as :
      (st : State e) (s : Sosreport) (old : SosreportReconciler) (all : List Job)
      {capacity : String} {l l' : List (String × NodeSet)}
      → st.s ≡ s
      → st.r.job_to_run_list ≡ made l
      → st.r.job_running_list ≡ made l'
      → has st.r.job_to_run_list s.metadata.uid ≡ false
      → has st.r.job_running_list s.metadata.uid ≡ false
      → Annotated s old
      → Exclusive s.metadata.uid old
      → count s.metadata.name ≤ 43
      → e.parse_quantity st.r.pvc_capacity ≡ some capacity
      → ((w : e.World) → (e.list_jobs req.namespace w).0 ≡ ok all)
      → All HasControllers all
      → GoesOn e s.metadata.uid old (progress e req st)
  resumes_as st s old all own is is' absent absent' kept exclusive short parsed listed controllers =
      subst
        (λ x.
          has st.r.job_to_run_list x.metadata.uid ≡ false
          → has st.r.job_running_list x.metadata.uid ≡ false
          → Annotated x old
          → Exclusive x.metadata.uid old
          → count x.metadata.name ≤ 43
          → GoesOn e x.metadata.uid old (progress e req st))
        own
        (λ absent absent' kept exclusive short.
          resumes st old all is is' absent absent' kept exclusive short parsed listed controllers)
        absent absent' kept exclusive short

-- A restarted operator goes on where the old one was: where the server has the Sosreport, not finished
-- and in progress, with both annotations as the old operator's lists for it, no node on both, and the
-- new operator has neither list, its first call of Reconcile returns without an error, each node is
-- in the phase in which the old operator had it or one phase on, from waiting to running or from
-- running to over, and no node is on both lists. This assumes that the jobs are listed with owner
-- references that say whether they are the controller, that the name has at most 43 characters, that
-- the capacity, given or the default, is a quantity, that the template, where it can be read and
-- decoded, is a Job with a container, that a range visits every entry of a map once, and that the
-- answer to an update describes the same object and has the annotations that were sent.
pub reconcile-GoesOn :
    (e : Env)
    → RangeIsPerm e
    → UpdateKeepsIdentity e
    → UpdateKeepsAnnotations e
    → SoundTemplate e "sosreport.yaml"
    → (req : NamespacedName) (st : State e) (s : Sosreport) (w : e.World)
      (old : SosreportReconciler) (all : List Job)
    → e.get_sosreport req st.w ≡ (ok s, w)
    → s.status.finished ≡ false
    → s.status.in_progress ≡ true
    → has st.r.job_to_run_list s.metadata.uid ≡ false
    → has st.r.job_running_list s.metadata.uid ≡ false
    → Annotated s old
    → Exclusive s.metadata.uid old
    → count s.metadata.name ≤ 43
    → ((w' : e.World)
        → (q : String) × (e.parse_quantity (
              or_default "10Gi"
                (value_of (config_map e global_config_map_name req w').0 "pvc-capacity"))
            ≡ some q))
    → ((w' : e.World) → (e.list_jobs req.namespace w').0 ≡ ok all)
    → All HasControllers all
    → GoesOn e s.metadata.uid old (reconcile e req st)
reconcile-GoesOn e law identity keeps sound req st s w old all found unfinished going absent absent'
      kept exclusive short capacity listed controllers =
    let uid = s.metadata.uid in
    let st₁ : State e = record { r = st.r; s = s; w = w } in
    let st₂ = (configure e req st₁).1 in
    let (ran, same, runs, to_runs, runnings, settings) = configure_lem e req st₁ in
    let (l, is) = or_made-made st.r.job_to_run_list in
    let (l', is') = or_made-made st.r.job_running_list in
    let (q, parsed) = capacity (config_map e development_config_map_name req w).1 in
    let to_run₂ : has st₂.r.job_to_run_list uid ≡ false =
      ap is_some (ap (λ m. get m uid) to_runs ∙ get-or_made st.r.job_to_run_list uid) ∙ absent in
    let running₂ : has st₂.r.job_running_list uid ≡ false =
      ap is_some (ap (λ m. get m uid) runnings ∙ get-or_made st.r.job_running_list uid) ∙ absent' in
    let started : (has st₂.r.run_list st₂.s.metadata.uid || st₂.s.status.in_progress) ≡ true =
      rw same (ground (arith, going)) in
    let eq : reconcile e req st ≡ progress e req st₂ =
      reached e req st s w found unfinished
      ∙ bind_of_done (configure e req) (λ u. dispatch e req) st₁ ran
      ∙ dispatch_started e req st₂ started in
    rw eq (
      resumes_as e law identity keeps sound req st₂ s old all {capacity = q} {l = l} {l' = l'} same
        (to_runs ∙ is) (runnings ∙ is') to_run₂ running₂ kept exclusive short
        (ap e.parse_quantity settings.storage.1 ∙ parsed) listed controllers)
