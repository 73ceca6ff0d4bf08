-- ===== src/Controller/Track/Retired.antt =====
-- A whole call of dequeueSosreportJobsDone of controllers/sosreport_controller.go, where the jobs can be
-- listed.
use sosreport_operator.Prelude.{
  String, ◌≡◌, refl, ap, ◌∙◌, Option, none, some, List, [], arith, ◌==◌, select, All, Bool-cases,
  inl, inr,
}
use sosreport_operator.GoMap.{StringMap, nil_map, made, assign, get_map, get_text, or_made}
use sosreport_operator.GoMap.Assoc.{put}
use sosreport_operator.Json.{marshal}
use sosreport_operator.Exec.{done, ◌>>◌}
use sosreport_operator.Exec.Rules.{bind_of_done}
use sosreport_operator.Api.{Sosreport, Job, NamespacedName}
use sosreport_operator.Env.{Env, ok, UpdateKeepsIdentity, UpdateKeepsAnnotations}
use sosreport_operator.Controller.State.{State, return, actions}
use sosreport_operator.Controller.Schedule.{annotate, make_annotations}
use sosreport_operator.Controller.Select.{or_owned, listed_jobs, get_sosreport_jobs}
use sosreport_operator.Controller.Select.Ownership.{HasControllers, belongs, owned_jobs-eq-select}
use sosreport_operator.Controller.Update.{update, refresh_sosreport}
use sosreport_operator.Controller.Track.{
  annotate_running, dequeue_loop, dequeue_all, dequeue_sosreport_jobs_done,
}
use sosreport_operator.Controller.Track.Dequeue.{Dequeued, finished_nodes, dequeue_loop-Dequeued}

-- The Sosreport object has the UID and the name of the other one, and its annotations are made.
pub record Annotatable (o s : Sosreport) : Type 0 where
  pub same_uid : s.metadata.uid ≡ o.metadata.uid
  pub same_name : s.metadata.name ≡ o.metadata.name
  pub text : List (String × String)
  pub is_made : s.metadata.annotations ≡ made text

renamed : {o o' s : Sosreport} → Annotatable o s → o ≡ o' → Annotatable o' s
renamed own h = record {
  same_uid = own.same_uid ∙ ap (λ x. x.metadata.uid) h;
  same_name = own.same_name ∙ ap (λ x. x.metadata.name) h;
  text = own.text;
  is_made = own.is_made;
}

or_made-made : (m : StringMap) → (l : List (String × String)) × (or_made m ≡ made l)
or_made-made nil_map = ([], refl)
or_made-made (made l) = (l, refl)

annotates :
    (s : Sosreport) (k j : String)
    → (s' : Sosreport) × (annotate (make_annotations s) k j ≡ some s') × Annotatable s s'
unfolding annotate make_annotations assign
annotates s k j =
    let (l, is) = or_made-made s.metadata.annotations in
    (
      record s { metadata = record (s.metadata) { annotations = made (put k j l) } },
      rw is refl,
      record { same_uid = refl; same_name = refl; text = put k j l; is_made = refl },
    )

made_annotations : (s : Sosreport) → Annotatable s (make_annotations s)
unfolding make_annotations
made_annotations s =
    let (l, is) = or_made-made s.metadata.annotations in
    record { same_uid = refl; same_name = refl; text = l; is_made = is }

module _ (e : Env) (identity : UpdateKeepsIdentity e) (keeps : UpdateKeepsAnnotations e)
    (req : NamespacedName) where
  pub annotate_running_lem :
      (st : State e)
      → (s' : Sosreport) × (w' : e.World) × (annotate_running e req st
          ≡ (done tt, record { r = st.r; s = s'; w = w' }))
        × Annotatable st.s s'
  unfolding annotate_running update refresh_sosreport actions
  annotate_running_lem st =
      let j = marshal (get_map st.r.job_running_list st.s.metadata.uid) in
      elim (Bool-cases (get_text st.s.metadata.annotations "job-running-list" == j)) [
        | inl a ↦ (make_annotations st.s, st.w, ground (arith, a), made_annotations st.s)
        | inr a ↦
            let (s₁, is, own) = annotates st.s "job-running-list" j in
            (
              (e.update s₁ st.w).0.1,
              (e.get_sosreport req (e.update s₁ st.w).1).1,
              ground (arith, a, is),
              record {
                same_uid = identity.uid s₁ st.w ∙ own.same_uid;
                same_name = identity.name s₁ st.w ∙ own.same_name;
                text = own.text;
                is_made = keeps.annotations s₁ st.w ∙ own.is_made;
              },
            )
      ]

  pub jobs_listed :
      (st : State e) (all : List Job) (w : e.World)
      → e.list_jobs req.namespace st.w ≡ (ok all, w)
      → All HasControllers all
      → get_sosreport_jobs e req st
        ≡ (done (ok (select (belongs st.s.metadata.uid) all)), record st { w = w })
  unfolding get_sosreport_jobs listed_jobs or_owned actions
  jobs_listed st all w listed controllers =
      ground (arith, listed, owned_jobs-eq-select st.s.metadata.uid all controllers)

  -- It returns, and the nodes of the Sosreport's jobs that are done have left its running list.
  pub dequeue_sosreport_jobs_done-Dequeued :
      (st : State e) (all : List Job) (w : e.World)
      → e.list_jobs req.namespace st.w ≡ (ok all, w)
      → All HasControllers all
      → ((dequeue_sosreport_jobs_done e req st).0 ≡ done none)
        × Annotatable st.s (dequeue_sosreport_jobs_done e req st).1.s
        × Dequeued st.s.metadata.uid st.r
            (dequeue_sosreport_jobs_done e req st).1.r
            (finished_nodes (select (belongs st.s.metadata.uid) all))
  unfolding dequeue_sosreport_jobs_done dequeue_all return
  dequeue_sosreport_jobs_done-Dequeued st all w listed controllers =
      let js = select (belongs st.s.metadata.uid) all in
      let st₁ : State e = record st { w = w } in
      let found = jobs_listed st all w listed controllers in
      let (ran, same, gone) = dequeue_loop-Dequeued e js st₁ in
      let st₂ = (dequeue_loop e js st₁).1 in
      let (s', w', ran', own) = annotate_running_lem st₂ in
      let last =
        bind_of_done (annotate_running e req) (λ u. return {e = e} {A = Option String} none) st₂
          (ap (λ x. x.0) ran') in
      let eq : dequeue_sosreport_jobs_done e req st
          ≡ (done none, record { r = st₂.r; s = s'; w = w' }) =
        bind_of_done (get_sosreport_jobs e req) (dequeue_all e req) st (ap (λ x. x.0) found)
        ∙ ap (λ x. dequeue_all e req (ok js) x.1) found
        ∙ bind_of_done (dequeue_loop e js)
            (λ u. annotate_running e req >> return {e = e} {A = Option String} none) st₁ ran
        ∙ last
        ∙ ap (λ x. (done none, x.1)) ran' in
      rw eq (refl, renamed own same, gone)
