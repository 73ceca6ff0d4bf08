-- ===== src/Controller/Run/Total.antt =====
-- When runSosreportJobs of controllers/sosreport_controller.go returns.
use sosreport_operator.Prelude.{
  ℕ, ◌+◌, ◌≤◌, String, ◌≡◌, refl, ap, Bool, true, false, count, Option, none, some, List, [], ◌∷◌,
  ◌++◌, arith, ℤ, at_least, if◌then◌else◌, map,
}
use sosreport_operator.GoMap.{GoMap, NodeSet, StringMap, made, entries, get_map}
use sosreport_operator.Json.{marshal}
use sosreport_operator.Exec.{done, ◌>>=◌, ◌>>◌}
use sosreport_operator.Exec.Total.{Returns, Anything, Returns-bind, Returns-if}
use sosreport_operator.Api.{Sosreport, Job, PersistentVolumeClaim, NamespacedName}
use sosreport_operator.Env.{Env, Error, Result, ok, err}
use sosreport_operator.Controller.State.{SosreportReconciler, State, return, range, actions}
use sosreport_operator.Controller.Frame.{
  At, At-job_for_sosreport, At-start_job, At-start_loop, At-get_env_configuration, At-range,
}
use sosreport_operator.Controller.Config.{get_env_configuration}
use sosreport_operator.Controller.Config.Environment.{get_env_configuration_lem}
use sosreport_operator.Controller.Update.{update, refresh_sosreport}
use sosreport_operator.Controller.Template.{job_for_sosreport}
use sosreport_operator.Controller.Template.Total.{SoundTemplate, job_for_sosreport-Returns}
use sosreport_operator.Controller.Run.{
  job_created, pvc_created, create_both, start_job, start_loop, move_started, annotate_lists,
  max_new_sosreports, run_with, run_sosreport_jobs,
}
use sosreport_operator.Controller.Run.Made.{
  move_nodes_returns, make_running_returns, refresh_returns,
}

module _ (e : Env) (r : SosreportReconciler) (s : Sosreport) where
  job_created-Returns :
      (node : String) (failed : Option Error)
      → Returns (At {e = e} r s) Anything (job_created e node failed)
  unfolding job_created actions
  job_created-Returns node none = record { run = λ st here. (true, refl, tt) }
  job_created-Returns node (some x) = record { run = λ st here. (false, refl, tt) }

  pvc_created-Returns :
      (node : String) (job : Job) (failed : Option Error)
      → Returns (At {e = e} r s) Anything (pvc_created e node job failed)
  unfolding pvc_created actions
  pvc_created-Returns node job (some x) = record { run = λ st here. (false, refl, tt) }
  pvc_created-Returns node job none = record {
    run = λ st here.
        (job_created-Returns node (e.create_job job st.w).0).run
          (record st { w = (e.create_job job st.w).1 })
          (record { reconciler = here.reconciler; sosreport = here.sosreport });
  }

  create_both-Returns :
      (node : String) (o : Result (Job × PersistentVolumeClaim))
      → Returns (At {e = e} r s) Anything (create_both e node o)
  unfolding create_both actions
  create_both-Returns node (err x) = record { run = λ st here. (false, refl, tt) }
  create_both-Returns node (ok (job, pvc)) = record {
    run = λ st here.
        (pvc_created-Returns node job (e.create_pvc pvc st.w).0).run
          (record st { w = (e.create_pvc pvc st.w).1 })
          (record { reconciler = here.reconciler; sosreport = here.sosreport });
  }

  module _ (short : count s.metadata.name ≤ 43) {capacity : String}
      (parsed : e.parse_quantity r.pvc_capacity ≡ some capacity)
      (sound : SoundTemplate e "sosreport.yaml") (environment : StringMap) where
    start_job-Returns :
        (node : String) → Returns (At {e = e} r s) Anything (start_job e environment node)
    unfolding start_job
    start_job-Returns node =
        Returns-bind (job_for_sosreport e node environment) (create_both e node)
          (job_for_sosreport-Returns e r s node environment capacity short parsed sound)
          (At-job_for_sosreport r s node environment) λ o any. create_both-Returns node o

    start_loop-Returns :
        (limit : ℤ) (i : ℕ) (new nodes : List String)
        → Returns (At {e = e} r s) Anything (start_loop e environment limit i new nodes)
    unfolding start_loop actions
    start_loop-Returns limit i new [] = record { run = λ st here. (new, refl, tt) }
    start_loop-Returns limit i new (n ∷ ns) =
        Returns-if (at_least i limit) _ _ (record { run = λ st here. (new, refl, tt) })
          (Returns-bind (start_job e environment n)
            (λ b.
              start_loop e environment limit (if b then i + 1 else i)
                (if b then new ++ (n ∷ []) else new) ns)
            (start_job-Returns n) (At-start_job r s environment n)
            λ b any.
              start_loop-Returns limit (if b then i + 1 else i) (if b then new ++ (n ∷ []) else new)
                ns)

  move_started_returns :
      (uid : String) (new : List String) (l : List (String × NodeSet)) (st : State e)
      → st.r.job_running_list ≡ made l
      → (r' : SosreportReconciler) × (move_started e uid new st ≡ (done tt, record st { r = r' }))
  unfolding move_started actions
  move_started_returns uid new l st is =
      let (r₁, first, own) = make_running_returns uid st.r l is in
      let (r₂, second) = move_nodes_returns uid r₁ new own in (r₂, rw (first, second) refl)

  annotate_lists_returns :
      (req : NamespacedName) (l : List (String × String)) (st : State e)
      → st.s.metadata.annotations ≡ made l
      → (annotate_lists e req st).0 ≡ done tt
  unfolding annotate_lists update refresh_sosreport actions
  annotate_lists_returns req l st is =
      let j = marshal (get_map st.r.job_to_run_list st.s.metadata.uid) in
      let j' = marshal (get_map st.r.job_running_list st.s.metadata.uid) in
      let (b, s₁, l₁, first, is₁) = refresh_returns st.s "job-to-run-list" j l is in
      let (b', s₂, l₂, second, is₂) = refresh_returns s₁ "job-running-list" j' l₁ is₁ in
      rw first (rw second (ground arith))

  bind_done :
      (req : NamespacedName) (st : State e)
      → (annotate_lists e req st).0 ≡ done tt
      → ((do annotate_lists e req; return {e = e} {A = Bool × Option Error} (true, none)) st).0
        ≡ done (true, none)
  unfolding actions
  bind_done req st h = ground arith

  pub record_lists-Returns :
      (req : NamespacedName) (l : List (String × NodeSet)) (a : List (String × String))
      (new : List String)
      → r.job_running_list ≡ made l
      → s.metadata.annotations ≡ made a
      → Returns
          (At {e = e} r s)
          (λ (x : Bool × Option Error). x ≡ (true, none))
          (do move_started e s.metadata.uid new; annotate_lists e req; return (true, none))
  unfolding ◌>>=◌
  record_lists-Returns req l a new is is' = record {
    run = λ st here.
        let (r', ran) = move_started_returns s.metadata.uid new l st (rw here.reconciler is) in
        let written = annotate_lists_returns req a (record st { r = r' }) (rw here.sosreport is') in
        ((true, none), rw ran (bind_done req (record st { r = r' }) written), refl);
  }

  range-Returns : {V : Type 0} (m : GoMap V) → Returns (At {e = e} r s) Anything (range m)
  unfolding actions
  range-Returns {V} m = record {
    run = λ st here. ((e.range_order (String × V) (entries m) st.w).0, refl, tt);
  }

  pub get_env_configuration-Returns :
      (req : NamespacedName) → Returns (At {e = e} r s) Anything (get_env_configuration e req)
  get_env_configuration-Returns req = record {
    run = λ st here.
        let (m, ran, is) = get_env_configuration_lem e req st in (made m, ap (λ x. x.0) ran, tt);
  }

  run_with-Returns :
      (req : NamespacedName) {capacity : String} {l : List (String × NodeSet)}
      {a : List (String × String)}
      → count s.metadata.name ≤ 43
      → e.parse_quantity r.pvc_capacity ≡ some capacity
      → SoundTemplate e "sosreport.yaml"
      → r.job_running_list ≡ made l
      → s.metadata.annotations ≡ made a
      → Returns (At {e = e} r s) (λ x. x ≡ (true, none)) (run_with e r s req)
  unfolding run_with
  run_with-Returns req {capacity} {l} {a} short parsed sound is is' =
      let limit = max_new_sosreports r s.metadata.uid in
      let to_run = get_map r.job_to_run_list s.metadata.uid in
      Returns-bind _ _ (get_env_configuration-Returns req) (At-get_env_configuration r s req)
        λ environment any.
          Returns-bind _ _ (range-Returns to_run) (At-range r s to_run) λ nodes any.
            Returns-bind _ _
              (start_loop-Returns short parsed sound environment limit 0 [] (map (λ k. k.0) nodes))
              (At-start_loop r s environment limit 0 [] (map (λ k. k.0) nodes))
              λ new any. record_lists-Returns req l a new is is'

-- runSosreportJobs returns true and no error if the name of the Sosreport has at most 43 characters,
-- the capacity is a quantity, the template file, where it can be read and decoded, is a Job with a
-- container, and the map of running jobs and the annotations are made, which the steps before it see
-- to. Whether the server creates the objects does not matter.
pub run_sosreport_jobs_returns :
    (e : Env) (req : NamespacedName) (st : State e) {capacity : String}
    {l : List (String × NodeSet)} {a : List (String × String)}
    → count st.s.metadata.name ≤ 43
    → e.parse_quantity st.r.pvc_capacity ≡ some capacity
    → SoundTemplate e "sosreport.yaml"
    → st.r.job_running_list ≡ made l
    → st.s.metadata.annotations ≡ made a
    → (run_sosreport_jobs e req st).0 ≡ done (true, none)
unfolding run_sosreport_jobs actions
run_sosreport_jobs_returns e req st {capacity} {l} {a} short parsed sound is is' =
    let (x, ran, same) =
      (run_with-Returns e st.r st.s req short parsed sound is is').run st
        (record { reconciler = refl; sosreport = refl }) in
    rw same at ran
