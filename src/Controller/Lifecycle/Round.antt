-- ===== src/Controller/Lifecycle/Round.antt =====
-- A call of Reconcile of controllers/sosreport_controller.go in a cluster that cooperates: it has the
-- Sosreport and a sound configuration, creates what it is asked to, and the jobs that run have ended by
-- the call.
use sosreport_operator.Prelude.{
  ℕ, ◌≤◌, ◌<◌, String, ◌≡◌, refl, ap, ◌∙◌, true, count, Option, none, some, List, arith, eq_refl, ℤ,
  pos, two63, nat_eq,
}
use sosreport_operator.GoMap.{NodeSet, made, get_map, len, or_nil}
use sosreport_operator.GoMap.Entries.{get-or_made}
use sosreport_operator.Exec.{Outcome, done, ◌>>=◌}
use sosreport_operator.Exec.Rules.{bind_of_done}
use sosreport_operator.Strings.{atoi}
use sosreport_operator.Api.{NamespacedName}
use sosreport_operator.Env.{
  Env, Error, RangeIsPerm, UpdateKeepsIdentity, UpdateKeepsAnnotations, CreatesObjects,
}
use sosreport_operator.Controller.State.{SosreportReconciler, State}
use sosreport_operator.Controller.Config.Settings.{number_or}
use sosreport_operator.Controller.Template.Total.{SoundTemplate}
use sosreport_operator.Controller.Template.Works.{WorkingTemplate}
use sosreport_operator.Controller.Track.{synchronize_job_running_cache, dequeue_sosreport_jobs_done}
use sosreport_operator.Controller.Track.Done.{IsEmpty, zero_len}
use sosreport_operator.Controller.Track.Retired.{dequeue_sosreport_jobs_done-Dequeued}
use sosreport_operator.Controller.Run.{run_sosreport_jobs}
use sosreport_operator.Controller.Run.Saved.{run_sosreport_jobs-Saved}
use sosreport_operator.Controller.Run.Progress.{free_slots_filled}
use sosreport_operator.Controller.Reconcile.{progress, reconcile, configure, dispatch}
use sosreport_operator.Controller.Reconcile.Branches.{dispatch_started}
use sosreport_operator.Controller.Reconcile.Call.{reached}
use sosreport_operator.Controller.Reconcile.Configure.{configure_lem}
use sosreport_operator.Controller.Reconcile.Concurrency.{synchronized, after_run}
use sosreport_operator.Controller.Lifecycle.{Tracked}
use sosreport_operator.Controller.Lifecycle.Call.{configured}
use sosreport_operator.Controller.Lifecycle.Steps.{Trimmed-Advanced}
use sosreport_operator.Controller.Lifecycle.Trim.{Trimmed-refl}
use sosreport_operator.Controller.Lifecycle.Trimming.{Fits-dequeue_sosreport_jobs_done}
use sosreport_operator.Controller.Lifecycle.Conclude.{
  made_of_has, conclude_returns, conclude_finished, SentFinished,
}
use sosreport_operator.Controller.Lifecycle.Finish.{after_synchronized}
use sosreport_operator.Controller.Lifecycle.Cluster.{Cooperative, Ended, asking}

-- how many nodes of the Sosreport wait
abbrev pub waiting_nodes : String → SosreportReconciler → ℕ
waiting_nodes uid r = len (get_map r.job_to_run_list uid)

pub len_of_zero : (m : NodeSet) → nat_eq (len m) 0 ≡ true → len m ≡ 0
len_of_zero m h = ground arith

-- What a call does: it returns, fewer nodes wait if some did, and if it leaves both lists empty it has
-- sent Finished.
pub record Shrinks (e : Env) (req : NamespacedName) (uid : String) (r : SosreportReconciler)
    (x : Outcome (Option Error) × State e) : Type 0 where
  pub returns : x.0 ≡ done none
  pub fewer : 0 < waiting_nodes uid r → waiting_nodes uid x.1.r < waiting_nodes uid r
  pub finishes :
      IsEmpty x.1.r.job_to_run_list uid → IsEmpty x.1.r.job_running_list uid → SentFinished x.1

pub moved_uid :
    {u v : String} (r r' : SosreportReconciler)
    → u ≡ v
    → (0 < waiting_nodes u r → waiting_nodes u r' < waiting_nodes u r)
    → 0 < waiting_nodes v r
    → waiting_nodes v r' < waiting_nodes v r
moved_uid r r' h f = rw (← h) f

pub number_given :
    {o : Option String} {v : String} {n : ℤ}
    → o ≡ some v
    → atoi v ≡ some n
    → number_or (pos 1) o ≡ n
number_given h k = rw h (rw (k, number_or) refl)

-- a call that begins with the same list of jobs to run
pub resized :
    {e : Env} {req : NamespacedName} {uid : String} {r r' : SosreportReconciler}
    {x : Outcome (Option Error) × State e}
    → get_map r'.job_to_run_list uid ≡ get_map r.job_to_run_list uid
    → Shrinks e req uid r' x
    → Shrinks e req uid r x
resized h s = record { returns = s.returns; fewer = rw (← h) s.fewer; finishes = s.finishes }

module _ (e : Env) (law : RangeIsPerm e) (identity : UpdateKeepsIdentity e)
    (keeps : UpdateKeepsAnnotations e) (creates : CreatesObjects e)
    (sound : SoundTemplate e "sosreport.yaml") (works : WorkingTemplate e "sosreport.yaml")
    (req : NamespacedName) (uid : String) (c : ℕ) (positive : 0 < c) (small : c < two63) where
  pub run-Shrinks :
      (st : State e) {capacity : String} {l : List (String × NodeSet)} {a : List (String × String)}
      → st.s.metadata.uid ≡ uid
      → count st.s.metadata.name ≤ 43
      → e.parse_quantity st.r.pvc_capacity ≡ some capacity
      → st.r.job_running_list ≡ made l
      → st.s.metadata.annotations ≡ made a
      → st.r.sosreport_concurrency ≡ pos c
      → IsEmpty st.r.job_running_list uid
      → Shrinks e req uid st.r ((run_sosreport_jobs e req >>= after_run e req) st)
  run-Shrinks st own short parsed is is' conc empty =
      let none_runs : len (get_map st.r.job_running_list uid) ≡ 0 =
        len_of_zero _ (zero_len (get_map st.r.job_running_list uid) empty) in
      let none_runs' : len (get_map st.r.job_running_list st.s.metadata.uid) ≡ 0 =
        rw own none_runs in
      let (ran, (started, moved, size, fewer)) =
        free_slots_filled e law creates sound works req st c short parsed is is' conc small
          (omega (arith, none_runs')) in
      let st' = (run_sosreport_jobs e req st).1 in
      let (ran', kept) = conclude_returns e req st' in
      let same : st'.s.metadata.uid ≡ uid =
        (run_sosreport_jobs-Saved e identity keeps req st ran).same_uid ∙ own in
      let fewer' =
        moved_uid st.r (run_sosreport_jobs e req st).1.r own
          (fewer (omega (arith, none_runs', positive))) in
      rw (bind_of_done (run_sosreport_jobs e req) (after_run e req) st ran) (record {
        returns = ran';
        fewer = λ h. rw kept (fewer' h);
        finishes = λ empty empty'.
            (conclude_finished e req st' (rw same (rw kept at empty))
              (rw same (rw kept at empty'))).2;
      })

  progress-Shrinks :
      (st : State e) {capacity : String}
      → st.s.metadata.uid ≡ uid
      → count st.s.metadata.name ≤ 43
      → e.parse_quantity st.r.pvc_capacity ≡ some capacity
      → st.r.sosreport_concurrency ≡ pos c
      → Tracked uid st.r
      → Ended e req uid st.r st.w
      → Shrinks e req uid st.r (progress e req st)
  unfolding progress
  progress-Shrinks st own short parsed conc known ended =
      let skip = synchronized e st (rw own known.to_run) (rw own known.running) in
      let w = (e.list_jobs req.namespace st.w).1 in
      let (ran, named, gone) =
        dequeue_sosreport_jobs_done-Dequeued e identity keeps req st ended.jobs w
          (ap (λ x. (x, w)) ended.listed) ended.controllers in
      let st₁ = (dequeue_sosreport_jobs_done e req st).1 in
      let fits =
        (Fits-dequeue_sosreport_jobs_done uid st.r uid identity req).at st
          (record { reconciler = Trimmed-refl uid st.r; same = own }) in
      let (l, is) =
        made_of_has st₁.r.job_running_list uid (fits.reconciler.running ∙ known.running) in
      let gone' = rw own at gone in
      let empty : IsEmpty st₁.r.job_running_list uid =
        λ k. ground (arith, gone'.running uid k, eq_refl uid, ended.ended k) in
      let eq : progress e req st ≡ (run_sosreport_jobs e req >>= after_run e req) st₁ =
        bind_of_done (synchronize_job_running_cache e) (λ synced. after_synchronized e req) st
          (ap (λ x. x.0) skip)
        ∙ ap (λ x. after_synchronized e req x.1) skip
        ∙ bind_of_done (dequeue_sosreport_jobs_done e req)
            (λ dequeued. run_sosreport_jobs e req >>= after_run e req) st ran in
      let shrinks =
        run-Shrinks st₁ (named.same_uid ∙ own) (rw named.same_name short)
          (ap (λ x. e.parse_quantity x.pvc_capacity) gone.others ∙ parsed) is named.is_made
          (ap (λ x. x.sosreport_concurrency) gone.others ∙ conc) empty in
      rw eq (resized (ap (λ x. get_map x.job_to_run_list uid) gone.others) shrinks)

  -- a whole call
  pub reconcile-Shrinks :
      (st : State e) (helps : Cooperative e req uid c st.w)
      → Tracked uid st.r
      → Ended e req uid st.r (asking e req st.r helps.sosreport helps.after)
      → Shrinks e req uid st.r (reconcile e req st)
  reconcile-Shrinks st helps known ended =
      let st₁ : State e = record { r = st.r; s = helps.sosreport; w = helps.after } in
      let st₂ = (configure e req st₁).1 in
      let (ran, same, runs, to_runs, runnings, settings) = configure_lem e req st₁ in
      let trimmed = configured e law identity uid req st₁ in
      let known₂ = (Trimmed-Advanced uid st.r st₂.r known trimmed).tracked in
      let uid₂ : st₂.s.metadata.uid ≡ uid = ap (λ x. x.metadata.uid) same ∙ helps.same_uid in
      let eq : reconcile e req st ≡ progress e req st₂ =
        reached e req st helps.sosreport helps.after helps.found helps.unfinished
        ∙ bind_of_done (configure e req) (λ u. dispatch e req) st₁ ran
        ∙ dispatch_started e req st₂ (rw uid₂ (ground (arith, known₂.listed))) in
      let ended₂ : Ended e req uid st₂.r st₂.w = record {
        jobs = ended.jobs;
        listed = ended.listed;
        controllers = ended.controllers;
        ended = λ k h. ended.ended k (ground (arith, trimmed.runs k, h));
      } in
      let shrinks =
        progress-Shrinks st₂ {capacity = helps.quantity} uid₂ (rw same helps.short)
          (ap e.parse_quantity settings.storage.1 ∙ helps.parsed)
          (settings.concurrency ∙ number_given helps.given helps.reads) known₂ ended₂ in
      rw eq (
        resized (ap (λ x. get_map x uid) to_runs ∙ ap or_nil (get-or_made st.r.job_to_run_list uid))
          shrinks)
