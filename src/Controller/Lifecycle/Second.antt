-- ===== src/Controller/Lifecycle/Second.antt =====
-- The second call of Reconcile of controllers/sosreport_controller.go for a Sosreport: the first one
-- that starts jobs of it.
use mathlib.Core.Path.{subst}
use sosreport_operator.Prelude.{
  ℕ, sym, ◌≤◌, ◌<◌, String, ◌≡◌, ap, ◌∙◌, count, Option, none, some, List, arith, pos, two63,
}
use sosreport_operator.GoMap.{NodeSet, made, get, get_map, len, or_nil, is_some}
use sosreport_operator.GoMap.Entries.{get-or_made}
use sosreport_operator.Exec.{Outcome, ◌>>=◌}
use sosreport_operator.Exec.Rules.{bind_of_done}
use sosreport_operator.Api.{NamespacedName}
use sosreport_operator.Env.{
  Env, Error, RangeIsPerm, UpdateKeepsIdentity, UpdateKeepsAnnotations, CreatesObjects,
}
use sosreport_operator.Controller.State.{SosreportReconciler, State}
use sosreport_operator.Controller.Template.Total.{SoundTemplate}
use sosreport_operator.Controller.Template.Works.{WorkingTemplate}
use sosreport_operator.Controller.Track.{synchronize_job_running_cache, dequeue_sosreport_jobs_done}
use sosreport_operator.Controller.Track.Idle.{
  synchronized_before_start, dequeue_sosreport_jobs_done_idle,
}
use sosreport_operator.Controller.Run.{run_sosreport_jobs}
use sosreport_operator.Controller.Run.Progress.{free_slots_filled}
use sosreport_operator.Controller.Reconcile.{progress, reconcile, configure, dispatch}
use sosreport_operator.Controller.Reconcile.Branches.{dispatch_started}
use sosreport_operator.Controller.Reconcile.Call.{reached}
use sosreport_operator.Controller.Reconcile.Configure.{configure_lem}
use sosreport_operator.Controller.Reconcile.Concurrency.{after_run}
use sosreport_operator.Controller.Lifecycle.Conclude.{conclude_returns}
use sosreport_operator.Controller.Lifecycle.Finish.{after_synchronized}
use sosreport_operator.Controller.Lifecycle.Cluster.{Cooperative, Ended, asking}
use sosreport_operator.Controller.Lifecycle.First.{or_made-made}
use sosreport_operator.Controller.Lifecycle.Launch.{Awaiting, Launched, none_held, Ran-Tracked}
use sosreport_operator.Controller.Lifecycle.Round.{number_given}

-- a call that begins with the same lists
same_start :
    {e : Env} {uid : String} {r r' : SosreportReconciler} {x : Outcome (Option Error) × State e}
    → get_map r'.job_to_run_list uid ≡ get_map r.job_to_run_list uid
    → Launched e uid r' x
    → Launched e uid r x
same_start h s = record { returns = s.returns; tracked = s.tracked; fewer = rw (← h) s.fewer }

module _ (e : Env) (law : RangeIsPerm e) (identity : UpdateKeepsIdentity e)
    (keeps : UpdateKeepsAnnotations e) (creates : CreatesObjects e)
    (sound : SoundTemplate e "sosreport.yaml") (works : WorkingTemplate e "sosreport.yaml")
    (req : NamespacedName) (uid : String) (c : ℕ) (positive : 0 < c) (small : c < two63) where
  run-Launched_lem :
      (st : State e) {capacity : String} {l : List (String × NodeSet)} {a : List (String × String)}
      → count st.s.metadata.name ≤ 43
      → e.parse_quantity st.r.pvc_capacity ≡ some capacity
      → st.r.job_running_list ≡ made l
      → st.s.metadata.annotations ≡ made a
      → st.r.sosreport_concurrency ≡ pos c
      → Awaiting st.s.metadata.uid st.r
      → Launched e st.s.metadata.uid st.r ((run_sosreport_jobs e req >>= after_run e req) st)
  run-Launched_lem st short parsed is is' conc new =
      let none_runs = (none_held st.r st.s.metadata.uid new.unstarted).0 in
      let (ran, (started, moved, size, fewer)) =
        free_slots_filled e law creates sound works req st c short parsed is is' conc small
          (omega (arith, none_runs)) in
      let st' = (run_sosreport_jobs e req st).1 in
      let (ran', kept) = conclude_returns e req st' in
      let known =
        Ran-Tracked st.r st'.r st.s.metadata.uid started new moved
          (omega (arith, size, none_runs, positive, new.waits)) in
      rw (bind_of_done (run_sosreport_jobs e req) (after_run e req) st ran) (record {
        returns = ran';
        tracked = rw kept known;
        fewer = rw kept (fewer (omega (arith, none_runs, positive)) new.waits);
      })

  run-Launched :
      (st : State e) {capacity : String} {l : List (String × NodeSet)} {a : List (String × String)}
      → st.s.metadata.uid ≡ uid
      → count st.s.metadata.name ≤ 43
      → e.parse_quantity st.r.pvc_capacity ≡ some capacity
      → st.r.job_running_list ≡ made l
      → st.s.metadata.annotations ≡ made a
      → st.r.sosreport_concurrency ≡ pos c
      → Awaiting uid st.r
      → Launched e uid st.r ((run_sosreport_jobs e req >>= after_run e req) st)
  run-Launched st own = rw (← own) (run-Launched_lem st)

  progress-Launched :
      (st : State e) {capacity : String} {l : List (String × NodeSet)}
      → st.s.metadata.uid ≡ uid
      → count st.s.metadata.name ≤ 43
      → e.parse_quantity st.r.pvc_capacity ≡ some capacity
      → st.r.job_running_list ≡ made l
      → get st.s.metadata.annotations "job-running-list" ≡ none
      → st.r.sosreport_concurrency ≡ pos c
      → Awaiting uid st.r
      → Ended e req uid st.r st.w
      → Launched e uid st.r (progress e req st)
  unfolding progress
  progress-Launched st own short parsed is clean conc new ended =
      let skip = synchronized_before_start e st (rw own new.to_run) (rw own new.unstarted) clean in
      let w = (e.list_jobs req.namespace st.w).1 in
      let (s', w', idle, named) =
        dequeue_sosreport_jobs_done_idle e identity keeps req st ended.jobs w
          (ap (λ x. (x, w)) ended.listed) ended.controllers (rw own new.unstarted) in
      let st₁ : State e = record { r = st.r; s = s'; w = w' } in
      let eq : progress e req st ≡ (run_sosreport_jobs e req >>= after_run e req) st₁ =
        bind_of_done (synchronize_job_running_cache e) (λ synced. after_synchronized e req) st
          (ap (λ x. x.0) skip)
        ∙ ap (λ x. after_synchronized e req x.1) skip
        ∙ bind_of_done (dequeue_sosreport_jobs_done e req)
            (λ dequeued. run_sosreport_jobs e req >>= after_run e req) st (ap (λ x. x.0) idle)
        ∙ ap (λ x. (run_sosreport_jobs e req >>= after_run e req) x.1) idle in
      rw eq (
        run-Launched st₁ (named.same_uid ∙ own) (rw named.same_name short) parsed is named.is_made
          conc new)

  -- a whole call, where the Sosreport that it reads has no annotation for the running jobs
  pub reconcile-Launched :
      (st : State e) (helps : Cooperative e req uid c st.w)
      → get helps.sosreport.metadata.annotations "job-running-list" ≡ none
      → Awaiting uid st.r
      → Ended e req uid st.r (asking e req st.r helps.sosreport helps.after)
      → Launched e uid st.r (reconcile e req st)
  reconcile-Launched st helps clean new ended =
      let st₁ : State e = record { r = st.r; s = helps.sosreport; w = helps.after } in
      let st₂ = (configure e req st₁).1 in
      let (ran, same, runs, to_runs, runnings, settings) = configure_lem e req st₁ in
      let (l, is) = or_made-made st.r.job_running_list in
      let uid₂ : st₂.s.metadata.uid ≡ uid = ap (λ x. x.metadata.uid) same ∙ helps.same_uid in
      let to_run₂ = ap (λ m. get m uid) to_runs ∙ get-or_made st.r.job_to_run_list uid in
      let running₂ = ap (λ m. get m uid) runnings ∙ get-or_made st.r.job_running_list uid in
      let new₂ : Awaiting uid st₂.r = record {
        listed = ap is_some (ap (λ m. get m uid) runs ∙ get-or_made st.r.run_list uid) ∙ new.listed;
        to_run = ap is_some to_run₂ ∙ new.to_run;
        unstarted = ap is_some running₂ ∙ new.unstarted;
        waits = subst (λ m. 0 < len (or_nil m)) (sym to_run₂) new.waits;
      } in
      let eq : reconcile e req st ≡ progress e req st₂ =
        reached e req st helps.sosreport helps.after helps.found helps.unfinished
        ∙ bind_of_done (configure e req) (λ u. dispatch e req) st₁ ran
        ∙ dispatch_started e req st₂ (rw uid₂ (ground (arith, new₂.listed))) in
      let ended₂ : Ended e req uid st₂.r st₂.w = record {
        jobs = ended.jobs;
        listed = ended.listed;
        controllers = ended.controllers;
        ended = λ k h. absurd (ground (arith, (none_held st₂.r uid new₂.unstarted).1 k, h));
      } in
      let launched =
        progress-Launched st₂ {capacity = helps.quantity} {l = l} uid₂ (rw same helps.short)
          (ap e.parse_quantity settings.storage.1 ∙ helps.parsed) (runnings ∙ is)
          (ap (λ x. get x.metadata.annotations "job-running-list") same ∙ clean)
          (settings.concurrency ∙ number_given helps.given helps.reads) new₂ ended₂ in
      rw eq (same_start (ap or_nil to_run₂) launched)
