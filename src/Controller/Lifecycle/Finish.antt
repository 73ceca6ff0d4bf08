-- ===== src/Controller/Lifecycle/Finish.antt =====
-- The last call of Reconcile of controllers/sosreport_controller.go for a Sosreport.
use sosreport_operator.Prelude.{
  String, ◌≡◌, refl, ap, ◌∙◌, Bool, true, false, ◌||◌, Option, none, List, arith, select, All,
  contains, eq_refl,
}
use sosreport_operator.GoMap.{NodeSet, made}
use sosreport_operator.GoMap.Sets.{holds}
use sosreport_operator.Exec.{Outcome, done, ◌>>=◌}
use sosreport_operator.Exec.Rules.{bind_of_done}
use sosreport_operator.Api.{Sosreport, Job, NamespacedName}
use sosreport_operator.Env.{
  Env, Error, ok, RangeIsPerm, UpdateKeepsIdentity, UpdateKeepsAnnotations,
}
use sosreport_operator.Controller.State.{State}
use sosreport_operator.Controller.Select.Ownership.{HasControllers, belongs}
use sosreport_operator.Controller.Track.{synchronize_job_running_cache, dequeue_sosreport_jobs_done}
use sosreport_operator.Controller.Track.Dequeue.{finished_nodes}
use sosreport_operator.Controller.Track.Done.{IsEmpty}
use sosreport_operator.Controller.Track.Retired.{dequeue_sosreport_jobs_done-Dequeued}
use sosreport_operator.Controller.Run.{run_sosreport_jobs}
use sosreport_operator.Controller.Run.Idle.{run_sosreport_jobs_idle}
use sosreport_operator.Controller.Run.Bound.{no_node_lost}
use sosreport_operator.Controller.Run.Saved.{run_sosreport_jobs-Saved}
use sosreport_operator.Controller.Reconcile.{progress, reconcile, configure, dispatch}
use sosreport_operator.Controller.Reconcile.Branches.{dispatch_started}
use sosreport_operator.Controller.Reconcile.Concurrency.{synchronized, after_run}
use sosreport_operator.Controller.Reconcile.Configure.{configure_lem}
use sosreport_operator.Controller.Reconcile.Call.{reached}
use sosreport_operator.Controller.Lifecycle.Call.{configured}
use sosreport_operator.Controller.Lifecycle.Steps.{Trimmed-Advanced}
use sosreport_operator.Controller.Lifecycle.{Tracked}
use sosreport_operator.Controller.Lifecycle.Trim.{Trimmed-refl}
use sosreport_operator.Controller.Lifecycle.Trimming.{Fits-dequeue_sosreport_jobs_done}
use sosreport_operator.Controller.Lifecycle.Cluster.{asking}
use sosreport_operator.Controller.Lifecycle.Conclude.{made_of_has, SentFinished, conclude_finished}

-- the steps of the branch for started Sosreports after the caches are synchronized
abbrev pub after_synchronized :
    (e : Env) → NamespacedName → State e → Outcome (Option Error) × State e
after_synchronized e req =
    dequeue_sosreport_jobs_done e req >>= λ dequeued. run_sosreport_jobs e req >>= after_run e req

-- a node of two empty lists
both_empty :
    {a b a' b' : Bool} → (a' || b') ≡ (a || b) → a ≡ false → b ≡ false → (a' ≡ false) × (b' ≡ false)
both_empty h p q = ground arith

module _ (e : Env) (law : RangeIsPerm e) (identity : UpdateKeepsIdentity e)
    (keeps : UpdateKeepsAnnotations e) (req : NamespacedName) where
  -- the last call of runSosreportJobs
  run_and_conclude :
      (st : State e) (uid : String)
      → st.s.metadata.uid ≡ uid
      → IsEmpty st.r.job_to_run_list uid
      → IsEmpty st.r.job_running_list uid
      → {l : List (String × NodeSet)} {a : List (String × String)} → st.r.job_running_list ≡ made l
      → st.s.metadata.annotations ≡ made a
      → (((run_sosreport_jobs e req >>= after_run e req) st).0 ≡ done none)
        × IsEmpty ((run_sosreport_jobs e req >>= after_run e req) st).1.r.job_to_run_list uid
        × IsEmpty ((run_sosreport_jobs e req >>= after_run e req) st).1.r.job_running_list uid
        × SentFinished ((run_sosreport_jobs e req >>= after_run e req) st).1
  run_and_conclude st uid own empty empty' is is' =
      let ran = run_sosreport_jobs_idle e law req st (rw own empty) is is' in
      let st' = (run_sosreport_jobs e req st).1 in
      let left =
        λ (k : String). both_empty (no_node_lost e law req st uid k ran) (empty k) (empty' k) in
      let same : st'.s.metadata.uid ≡ uid =
        (run_sosreport_jobs-Saved e identity keeps req st ran).same_uid ∙ own in
      let (ran', kept, sent) =
        conclude_finished e req st' (rw same (λ k. (left k).0)) (rw same (λ k. (left k).1)) in
      rw (bind_of_done (run_sosreport_jobs e req) (after_run e req) st ran)
        (ran', rw kept (λ k. (left k).0), rw kept (λ k. (left k).1), sent)

  progress_completes_lem :
      (st : State e) (all : List Job) (w : e.World)
      → Tracked st.s.metadata.uid st.r
      → e.list_jobs req.namespace st.w ≡ (ok all, w)
      → All HasControllers all
      → IsEmpty st.r.job_to_run_list st.s.metadata.uid
      → ((k : String)
          → holds st.r.job_running_list st.s.metadata.uid k ≡ true
          → contains k (finished_nodes (select (belongs st.s.metadata.uid) all)) ≡ true)
      → ((progress e req st).0 ≡ done none)
        × IsEmpty (progress e req st).1.r.job_to_run_list st.s.metadata.uid
        × IsEmpty (progress e req st).1.r.job_running_list st.s.metadata.uid
        × SentFinished (progress e req st).1
  unfolding progress
  progress_completes_lem st all w known listed controllers empty ended =
      let uid = st.s.metadata.uid in
      let skip = synchronized e st known.to_run known.running in
      let (ran, own, gone) =
        dequeue_sosreport_jobs_done-Dequeued e identity keeps req st all w listed controllers in
      let st₁ = (dequeue_sosreport_jobs_done e req st).1 in
      let fits =
        (Fits-dequeue_sosreport_jobs_done uid st.r uid identity req).at st
          (record { reconciler = Trimmed-refl uid st.r; same = refl }) in
      let (l, is) =
        made_of_has st₁.r.job_running_list uid (fits.reconciler.running ∙ known.running) in
      let empty₁ : IsEmpty st₁.r.job_running_list uid =
        λ k. ground (arith, gone.running uid k, eq_refl uid, ended k) in
      let eq : progress e req st ≡ (run_sosreport_jobs e req >>= after_run e req) st₁ =
        bind_of_done (synchronize_job_running_cache e) (λ synced. after_synchronized e req) st
          (ap (λ x. x.0) skip)
        ∙ ap (λ x. after_synchronized e req x.1) skip
        ∙ bind_of_done (dequeue_sosreport_jobs_done e req)
            (λ dequeued. run_sosreport_jobs e req >>= after_run e req) st ran in
      rw eq (
        run_and_conclude st₁ uid own.same_uid (λ k. fits.reconciler.waits k ∙ empty k) empty₁ is
          own.is_made)

  progress_completes :
      (st : State e) (uid : String) (all : List Job) (w : e.World)
      → st.s.metadata.uid ≡ uid
      → Tracked uid st.r
      → e.list_jobs req.namespace st.w ≡ (ok all, w)
      → All HasControllers all
      → IsEmpty st.r.job_to_run_list uid
      → ((k : String)
          → holds st.r.job_running_list uid k ≡ true
          → contains k (finished_nodes (select (belongs uid) all)) ≡ true)
      → ((progress e req st).0 ≡ done none)
        × IsEmpty (progress e req st).1.r.job_to_run_list uid
        × IsEmpty (progress e req st).1.r.job_running_list uid
        × SentFinished (progress e req st).1
  progress_completes st uid all w own = rw (← own) (progress_completes_lem st all w)

-- the last call, where the jobs are as named when it asks for them
pub completes_at :
    (e : Env)
    → RangeIsPerm e
    → UpdateKeepsIdentity e
    → UpdateKeepsAnnotations e
    → (req : NamespacedName) (st : State e) (s : Sosreport) (w : e.World) (all : List Job)
    → e.get_sosreport req st.w ≡ (ok s, w)
    → s.status.finished ≡ false
    → Tracked s.metadata.uid st.r
    → (e.list_jobs req.namespace (asking e req st.r s w)).0 ≡ ok all
    → All HasControllers all
    → IsEmpty st.r.job_to_run_list s.metadata.uid
    → ((k : String)
        → holds st.r.job_running_list s.metadata.uid k ≡ true
        → contains k (finished_nodes (select (belongs s.metadata.uid) all)) ≡ true)
    → ((reconcile e req st).0 ≡ done none)
      × IsEmpty (reconcile e req st).1.r.job_to_run_list s.metadata.uid
      × IsEmpty (reconcile e req st).1.r.job_running_list s.metadata.uid
      × SentFinished (reconcile e req st).1
completes_at e law identity keeps req st s w all found unfinished known listed controllers empty
      ended =
    let uid = s.metadata.uid in
    let st₁ : State e = record { r = st.r; s = s; w = w } in
    let st₂ = (configure e req st₁).1 in
    let trimmed = configured e law identity uid req st₁ in
    let known₂ = (Trimmed-Advanced uid st.r st₂.r known trimmed).tracked in
    let settled = configure_lem e req st₁ in
    let ran = settled.0 in
    let own = settled.1 in
    let eq : reconcile e req st ≡ progress e req st₂ =
      reached e req st s w found unfinished
      ∙ bind_of_done (configure e req) (λ u. dispatch e req) st₁ ran
      ∙ dispatch_started e req st₂ (rw own (ground (arith, known₂.listed))) in
    rw eq (
      progress_completes e law identity keeps req st₂ uid all (e.list_jobs req.namespace st₂.w).1
        (ap (λ x. x.metadata.uid) own) known₂
        (ap (λ x. (x, (e.list_jobs req.namespace st₂.w).1)) listed) controllers
        (λ k. trimmed.waits k ∙ empty k) (λ k h. ended k (ground (arith, trimmed.runs k, h))))

-- The last call of Reconcile: where the server has the Sosreport, not finished, and lists jobs of which
-- those of the Sosreport that are done name every node on its running list, and no node waits, a call
-- for a tracked Sosreport returns without an error, both its lists are empty afterwards, and the last
-- write has sent a status with Finished set and InProgress taken back. This assumes that a range visits
-- every entry of a map once, that the answer to an update has the identity and the annotations that
-- were sent, and that every owner reference of the listed jobs says whether it is the controller.
pub reconcile_completes :
    (e : Env)
    → RangeIsPerm e
    → UpdateKeepsIdentity e
    → UpdateKeepsAnnotations e
    → (req : NamespacedName) (st : State e) (s : Sosreport) (w : e.World) (all : List Job)
    → e.get_sosreport req st.w ≡ (ok s, w)
    → s.status.finished ≡ false
    → Tracked s.metadata.uid st.r
    → ((w' : e.World) → (e.list_jobs req.namespace w').0 ≡ ok all)
    → All HasControllers all
    → IsEmpty st.r.job_to_run_list s.metadata.uid
    → ((k : String)
        → holds st.r.job_running_list s.metadata.uid k ≡ true
        → contains k (finished_nodes (select (belongs s.metadata.uid) all)) ≡ true)
    → ((reconcile e req st).0 ≡ done none)
      × IsEmpty (reconcile e req st).1.r.job_to_run_list s.metadata.uid
      × IsEmpty (reconcile e req st).1.r.job_running_list s.metadata.uid
      × SentFinished (reconcile e req st).1
reconcile_completes e law identity keeps req st s w all found unfinished known listed controllers
      empty ended =
    completes_at e law identity keeps req st s w all found unfinished known
      (listed (asking e req st.r s w)) controllers empty ended
