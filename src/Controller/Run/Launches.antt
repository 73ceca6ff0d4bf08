-- ===== src/Controller/Run/Launches.antt =====
-- What runSosreportJobs of controllers/sosreport_controller.go creates on the server, against the nodes
-- that it moves from one list to the other.
use Prim.Native.Nat.{min}
use sosreport_operator.Prelude.{
  ℕ, ◌-◌, ◌≤◌, ◌<◌, String, ◌≡◌, refl, Bool, true, count, Option, none, some, List, [], arith, map,
  pos, length, two63,
}
use sosreport_operator.GoMap.{NodeSet, made, get_map, len}
use sosreport_operator.Exec.{done}
use sosreport_operator.Exec.Rules.{Keeps, Keeps-bind, bind-returns}
use sosreport_operator.Api.{Sosreport, Job, NamespacedName}
use sosreport_operator.Env.{Env, Error, RangeIsPerm, SetsController, CreatesObjects}
use sosreport_operator.Controller.State.{SosreportReconciler, State, range}
use sosreport_operator.Controller.Config.{get_env_configuration}
use sosreport_operator.Controller.Frame.{At, At-get_env_configuration, At-range}
use sosreport_operator.Controller.Frame.Log.{
  logged, logged-RangeIsPerm, Logs, Logs-get_env_configuration, Logs-range, Logs-return,
  Logs-move_started, Logs-annotate_lists,
}
use sosreport_operator.Controller.Template.Total.{SoundTemplate}
use sosreport_operator.Controller.Template.Works.{WorkingTemplate}
use sosreport_operator.Controller.Run.{start_loop, run_with, run_sosreport_jobs, max_new_sosreports}
use sosreport_operator.Controller.Run.Created.{Created, start_loop-Created}
use sosreport_operator.Controller.Run.Effect.{
  Ran, LoopGives, contains-range, length-range, record_lists, start_and_record-Ran,
  run_sosreport_jobs-eq,
}
use sosreport_operator.Controller.Run.Progress.{loop_fills, free_slots}
use sosreport_operator.Controller.Run.Total.{run_sosreport_jobs_returns}

module _ (e : Env) (law : RangeIsPerm e) (sets : SetsController e) (req : NamespacedName) where
  Logs-record_lists :
      (l : List Job) (uid : String) (new : List String)
      → Keeps (Logs e l) (record_lists (logged e) uid req new)
  Logs-record_lists l uid new =
      Keeps-bind {B = Bool × Option Error} _ _ (Logs-move_started l uid new) λ _.
        Keeps-bind {B = Bool × Option Error} _ _ (Logs-annotate_lists l req)
          λ _. Logs-return l (true, none)

  run_with-Created :
      (r : SosreportReconciler) (s : Sosreport) (P : List String → Type 0) (st : State (logged e))
      {x : Bool × Option Error}
      → LoopGives (logged e) r s P
      → At r s st
      → (run_with (logged e) r s req st).0 ≡ done x
      → (started : List String) × Ran r (run_with (logged e) r s req st).1.r s.metadata.uid started
        × Created s.metadata.uid st.w.1 (run_with (logged e) r s req st).1.w.1 started
        × P started
  unfolding run_with
  run_with-Created r s P st gives here h =
      let uid = s.metadata.uid in
      let m = get_map r.job_to_run_list uid in
      let (environment, ran₁, rest₁) = bind-returns (get_env_configuration (logged e) req) _ st h in
      let st₁ = (get_env_configuration (logged e) req st).1 in
      let at₁ = (At-get_env_configuration r s req).at st here in
      let log₁ = ((Logs-get_env_configuration st.w.1 req).at st (record { kept = refl })) in
      let h₁ = rw rest₁ at h in
      let (nodes, ran₂, rest₂) = bind-returns (range m) _ st₁ h₁ in
      let st₂ = (range m st₁).1 in
      let at₂ = (At-range r s m).at st₁ at₁ in
      let log₂ = (Logs-range st.w.1 m).at st₁ log₁ in
      let names = map (λ k. k.0) nodes in
      let h₂ = rw rest₂ at h₁ in
      let (new, ran, loop) =
        start_and_record-Ran (logged e) uid req environment r names s st₂ at₂
          (λ k. contains-range (logged e) (logged-RangeIsPerm e law) m st₁ k ran₂) h₂ in
      let limit = max_new_sosreports r uid in
      let (more, is, created) =
        start_loop-Created e sets r s environment limit 0 [] names st₂ at₂ loop in
      let st₃ = (start_loop (logged e) environment limit 0 [] names st₂).1 in
      let (new', ran₃, rest₃) =
        bind-returns (start_loop (logged e) environment limit 0 [] names) _ st₂ h₂ in
      let log₃ = (Logs-record_lists st₃.w.1 uid new').at st₃ (record { kept = refl }) in
      (
        new,
        rw (rest₁, rest₂) ran,
        rw (rest₁, rest₂, rest₃, log₃.kept, is) (rw log₂.kept at created),
        gives environment names new st₂ at₂
            (length-range (logged e) (logged-RangeIsPerm e law) m st₁ ran₂) loop,
      )

  run_sosreport_jobs_launched :
      (P : List String → Type 0) (st : State (logged e)) {x : Bool × Option Error}
      → LoopGives (logged e) st.r st.s P
      → (run_sosreport_jobs (logged e) req st).0 ≡ done x
      → (started : List String) × Ran st.r
          (run_sosreport_jobs (logged e) req st).1.r
          st.s.metadata.uid
          started
        × Created st.s.metadata.uid st.w.1 (run_sosreport_jobs (logged e) req st).1.w.1 started
        × P started
  run_sosreport_jobs_launched P st gives h = rw run_sosreport_jobs-eq (
      run_with-Created st.r st.s P st gives (record { reconciler = refl; sosreport = refl })
        (rw run_sosreport_jobs-eq at h))

  -- In every cluster, here with a log of the Jobs that the server has created: if runSosreportJobs
  -- returns, the nodes that have gone from the Sosreport's list of jobs to run to its list of
  -- running jobs are exactly those for which it has had a Job created, one for each and in this
  -- order; each of these Jobs records its node and is the Sosreport's; and no other Job was created,
  -- so that a node whose Job or claim could not be created still waits. This assumes that a range
  -- visits every entry of a map once, and that SetControllerReference makes the Sosreport the
  -- controller of an object that has no owner.
  pub run_sosreport_jobs-Created :
      (st : State (logged e)) {x : Bool × Option Error}
      → (run_sosreport_jobs (logged e) req st).0 ≡ done x
      → (started : List String) × Ran st.r
          (run_sosreport_jobs (logged e) req st).1.r
          st.s.metadata.uid
          started
        × Created st.s.metadata.uid st.w.1 (run_sosreport_jobs (logged e) req st).1.w.1 started
  run_sosreport_jobs-Created st h =
      let (started, ran, created, any) =
        run_sosreport_jobs_launched (λ started. Unit) st
          (λ environment names new st' here size loop. tt) h in
      (started, ran, created)

  -- In a cluster that creates what it is asked to, here with a log of the Jobs that the server has
  -- created, runSosreportJobs returns, and it has had as many Jobs created as slots were free, or as
  -- nodes waited, whichever is less: free are the concurrency `c` less the jobs that ran before. Each
  -- is the Sosreport's and for one of the nodes that have gone from the list of jobs to run to that
  -- of running jobs, in their order. This assumes that a range visits every entry of a map once, that
  -- SetControllerReference makes the Sosreport the controller of an object that has no owner, that
  -- the template is found and is a Job with a container, that the capacity is a quantity, that the
  -- name of the Sosreport has at most 43 characters, that the map of running jobs and the annotations
  -- are made, and that `c` and the number of running jobs fit Go's `int`.
  pub free_slots_get_jobs :
      CreatesObjects e
      → SoundTemplate e "sosreport.yaml"
      → WorkingTemplate e "sosreport.yaml"
      → (st : State (logged e)) (c : ℕ) {capacity : String} {l : List (String × NodeSet)}
        {a : List (String × String)}
      → count st.s.metadata.name ≤ 43
      → e.parse_quantity st.r.pvc_capacity ≡ some capacity
      → st.r.job_running_list ≡ made l
      → st.s.metadata.annotations ≡ made a
      → st.r.sosreport_concurrency ≡ pos c
      → c < two63
      → len (get_map st.r.job_running_list st.s.metadata.uid) < two63
      → let uid = st.s.metadata.uid in
        ((run_sosreport_jobs (logged e) req st).0 ≡ done (true, none))
        × ((started : List String) × Ran st.r (run_sosreport_jobs (logged e) req st).1.r uid started
            × Created uid st.w.1 (run_sosreport_jobs (logged e) req st).1.w.1 started
            × (length started
                ≡ min
                    (c - len (get_map st.r.job_running_list uid))
                    (len (get_map st.r.job_to_run_list uid))))
  free_slots_get_jobs creates sound works st c {capacity} short parsed is is' conc small few =
      let uid = st.s.metadata.uid in
      let creates' : CreatesObjects (logged e) = record {
        pvc = λ p w. creates.pvc p w.0;
        job = λ j w. creates.job j w.0;
      } in
      let sound' : SoundTemplate (logged e) "sosreport.yaml" = record {
        sound = λ dir yaml json w. sound.sound dir yaml json w.0;
      } in
      let works' : WorkingTemplate (logged e) "sosreport.yaml" = record {
        found = λ w. works.found w.0;
        file = λ w. works.file w.0;
      } in
      let returns = run_sosreport_jobs_returns (logged e) req st short parsed sound' is is' in
      let (started, ran, created, filled) =
        run_sosreport_jobs_launched _ st (loop_fills (logged e) creates' works' st short parsed)
          returns in
      (
        returns,
        (started, ran, created, omega (arith, filled, free_slots st.r uid c conc small few)),
      )
