-- ===== src/Controller/Track/Idle.antt =====
-- synchronizeJobRunningCache and dequeueSosreportJobsDone of controllers/sosreport_controller.go for a
-- Sosreport that was scheduled and of which no job was started yet.
use sosreport_operator.Prelude.{
  String, ◌≡◌, refl, ap, ◌∙◌, true, false, Option, none, List, [], ◌∷◌, arith, select, All,
}
use sosreport_operator.GoMap.{entries, get, has}
use sosreport_operator.GoMap.Assoc.{find}
use sosreport_operator.Exec.{done, ◌>>◌}
use sosreport_operator.Exec.Rules.{bind_of_done}
use sosreport_operator.Api.{Sosreport, Job, NamespacedName}
use sosreport_operator.Env.{Env, ok, UpdateKeepsIdentity, UpdateKeepsAnnotations}
use sosreport_operator.Controller.State.{State, return, actions}
use sosreport_operator.Controller.Select.{get_sosreport_jobs}
use sosreport_operator.Controller.Select.Ownership.{HasControllers, belongs}
use sosreport_operator.Controller.Track.{
  load_annotation, load_job_to_run_list, load_job_running_list, synchronize_job_running_cache,
  retire_job, dequeue_job, dequeue_loop, annotate_running, dequeue_all, dequeue_sosreport_jobs_done,
}
use sosreport_operator.Controller.Track.Retired.{Annotatable, annotate_running_lem, jobs_listed}

module _ (e : Env) where
  -- There is nothing to load.
  pub synchronized_before_start :
      (st : State e)
      → has st.r.job_to_run_list st.s.metadata.uid ≡ true
      → has st.r.job_running_list st.s.metadata.uid ≡ false
      → get st.s.metadata.annotations "job-running-list" ≡ none
      → synchronize_job_running_cache e st ≡ (done none, st)
  unfolding synchronize_job_running_cache load_annotation load_job_to_run_list load_job_running_list
      actions
  synchronized_before_start st a b c = ground (arith, a, b, c)

  not_running :
      (j : Job) (st : State e)
      → has st.r.job_running_list st.s.metadata.uid ≡ false
      → retire_job e j st ≡ (done tt, st)
  unfolding retire_job actions get entries find
  not_running j st h = ground (arith, h)

  dequeue_loop_idle :
      (js : List Job) (st : State e)
      → has st.r.job_running_list st.s.metadata.uid ≡ false
      → dequeue_loop e js st ≡ (done tt, st)
  unfolding dequeue_loop dequeue_job actions
  dequeue_loop_idle [] st h = refl
  dequeue_loop_idle (j ∷ js) st h = ground (arith, not_running j st h, dequeue_loop_idle js st h)

  -- The call returns and leaves the reconciler alone.
  pub dequeue_sosreport_jobs_done_idle :
      UpdateKeepsIdentity e
      → UpdateKeepsAnnotations e
      → (req : NamespacedName) (st : State e) (all : List Job) (w : e.World)
      → e.list_jobs req.namespace st.w ≡ (ok all, w)
      → All HasControllers all
      → has st.r.job_running_list st.s.metadata.uid ≡ false
      → (s' : Sosreport) × (w' : e.World) × (dequeue_sosreport_jobs_done e req st
          ≡ (done none, record { r = st.r; s = s'; w = w' }))
        × Annotatable st.s s'
  unfolding dequeue_sosreport_jobs_done dequeue_all return
  dequeue_sosreport_jobs_done_idle identity keeps req st all w listed controllers h =
      let js = select (belongs st.s.metadata.uid) all in
      let st₁ : State e = record st { w = w } in
      let found = jobs_listed e identity keeps req st all w listed controllers in
      let idle = dequeue_loop_idle js st₁ h in
      let (s', w', ran', own) = annotate_running_lem e identity keeps req st₁ in
      let last =
        bind_of_done (annotate_running e req) (λ u. return {e = e} {A = Option String} none) st₁
          (ap (λ x. x.0) ran') in
      let eq : dequeue_sosreport_jobs_done e req st
          ≡ (done none, record { r = st.r; s = s'; w = w' }) =
        bind_of_done (get_sosreport_jobs e req) (dequeue_all e req) st (ap (λ x. x.0) found)
        ∙ ap (λ x. dequeue_all e req (ok js) x.1) found
        ∙ bind_of_done (dequeue_loop e js)
            (λ u. annotate_running e req >> return {e = e} {A = Option String} none) st₁
            (ap (λ x. x.0) idle)
        ∙ ap (λ x. (annotate_running e req >> return {e = e} {A = Option String} none) x.1) idle
        ∙ last
        ∙ ap (λ x. (done none, x.1)) ran' in
      (s', w', eq, own)
