-- ===== src/Controller/Run/Effect.antt =====
-- What a call of runSosreportJobs of controllers/sosreport_controller.go does to the job lists.
use mathlib.Core.List.Perm
use sosreport_operator.Prelude.{
  String, ◌≡◌, refl, Bool, true, Option, none, List, [], arith, ◌∙◌, map, ℤ, pos, negsuc, contains,
  contains-perm, All, All-of_contains, length, length-map, length-perm, Option-cases, inl, inr,
}
use sosreport_operator.GoMap.{GoMap, StringMap, entries, has, get_map, len, keys}
use sosreport_operator.GoMap.Sets.{holds, contains-entries}
use sosreport_operator.Exec.{Exec, done, ◌>>=◌, ◌>>◌}
use sosreport_operator.Exec.Rules.{Keeps-bind, bind-returns}
use sosreport_operator.Api.{Sosreport, NamespacedName}
use sosreport_operator.Env.{Env, Error, RangeIsPerm}
use sosreport_operator.Controller.State.{SosreportReconciler, State, range, return, actions}
use sosreport_operator.Controller.Config.{get_env_configuration}
use sosreport_operator.Controller.Frame.{At, At-get_env_configuration, At-range, At-start_loop}
use sosreport_operator.Controller.Frame.Reconciler.{
  AtReconciler-return, AtReconciler-annotate_lists,
}
use sosreport_operator.Controller.Run.{
  start_loop, move_started, annotate_lists, run_with, run_sosreport_jobs, max_new_sosreports,
  make_running, move_nodes,
}
use sosreport_operator.Controller.Run.Move.{Moved-trans, Moved, move_nodes-Moved, make_running_same}
use sosreport_operator.Controller.Run.Loop.{Within, start_loop-Started}

-- What a call of runSosreportJobs does: some nodes of the Sosreport's list of jobs to run, no more
-- than the limit, go from that list to the one of running jobs, and nothing else changes in the
-- reconciler.
pub record Ran (r r' : SosreportReconciler) (uid : String) (started : List String) : Type 0 where
  pub moved : Moved uid r r' started
  pub bound : Within (max_new_sosreports r uid) (length started)
  pub from : All (λ k. holds r.job_to_run_list uid k ≡ true) started

Within-zero : (l : ℤ) → Within l 0
Within-zero (pos l) = omega arith
Within-zero (negsuc l) = refl

module _ (e : Env) where
  move_started-Moved :
      (uid : String) (new : List String) (st : State e) {u : Unit {0}}
      → (move_started e uid new st).0 ≡ done u
      → Moved uid st.r (move_started e uid new st).1.r new
  unfolding move_started actions
  move_started-Moved uid new st h = elim (Option-cases (make_running st.r uid)) [
    | inl a ↦ absurd (ground (arith, a))
    | inr (r₁, a) ↦ elim (Option-cases (move_nodes r₁ uid new)) [
      | inl b ↦ absurd (ground (arith, a, b))
      | inr (r₂, b) ↦
          let same : (move_started e uid new st).1.r ≡ r₂ = ground (arith, a, b) in
          rw same (Moved-trans (make_running_same uid st.r a) (move_nodes-Moved uid r₁ new b))
    ]
  ]

  -- the nodes that the loop visits are those of the map, in some order
  pub contains-range :
      RangeIsPerm e
      → {V : Type 0} (m : GoMap V) (st : State e) {nodes : List (String × V)} (k : String)
      → (range m st).0 ≡ done nodes
      → contains k (map (λ x. x.0) nodes) ≡ has m k
  unfolding actions
  contains-range law {V} m st {nodes} k h =
      let same : (e.range_order (String × V) (entries m) st.w).0 ≡ nodes = ground arith in
      rw (← same) (
        contains-perm k (Perm.map (λ x. x.0) (law.perm (String × V) (entries m) st.w))
        ∙ contains-entries k m)

  module _ (uid : String) (req : NamespacedName) where
    abbrev pub record_lists : List String → Exec (State e) (Bool × Option Error)
    record_lists new = do move_started e uid new; annotate_lists e req; return (true, none)

    record_lists-Moved :
        (new : List String) (st : State e) {x : Bool × Option Error}
        → (record_lists new st).0 ≡ done x
        → Moved uid st.r (record_lists new st).1.r new
    record_lists-Moved new st h =
        let (u, ran, rest) = bind-returns (move_started e uid new) _ st h in
        let st' = (move_started e uid new st).1 in
        let kept =
          (Keeps-bind {B = Bool × Option Error} (annotate_lists e req) (λ _. return (true, none))
              (AtReconciler-annotate_lists st'.r req)
              (λ _. AtReconciler-return st'.r (true, none))).at
            st' (record { reconciler = refl }) in
        rw rest (rw (kept.reconciler) (move_started-Moved uid new st ran))

    module _ (environment : StringMap) (r : SosreportReconciler) where
      abbrev pub start_and_record : List String → Exec (State e) (Bool × Option Error)
      start_and_record names =
          start_loop e environment (max_new_sosreports r uid) 0 [] names >>= record_lists

      pub start_and_record-Ran :
          (names : List String) (s : Sosreport) (st : State e) {x : Bool × Option Error}
          → At r s st
          → ((k : String) → contains k names ≡ holds r.job_to_run_list uid k)
          → (start_and_record names st).0 ≡ done x
          → (started : List String) × Ran r (start_and_record names st).1.r uid started
            × ((start_loop e environment (max_new_sosreports r uid) 0 [] names st).0 ≡ done started)
      start_and_record-Ran names s st here keys h =
          let limit = max_new_sosreports r uid in
          let (new, ran, rest) = bind-returns (start_loop e environment limit 0 [] names) _ st h in
          let st' = (start_loop e environment limit 0 [] names st).1 in
          let there = (At-start_loop r s environment limit 0 [] names).at st here in
          let started =
            start_loop-Started e environment limit 0 [] names st {new' = new} refl
              (Within-zero limit) ran in
          let moved = record_lists-Moved new st' (rw rest at h) in
          (
            new,
            rw rest (record {
              moved = rw there.reconciler at moved;
              bound = started.bound;
              from =
                  All-of_contains (holds r.job_to_run_list uid) new
                    (λ k c. ground (arith, keys k, started.from k c));
            }),
            ran,
          )

  pub run_sosreport_jobs-eq :
      (req : NamespacedName) (st : State e)
      → run_sosreport_jobs e req st ≡ run_with e st.r st.s req st
  unfolding run_sosreport_jobs actions
  run_sosreport_jobs-eq req st = refl

  pub length-range :
      RangeIsPerm e
      → {V : Type 0} (m : GoMap V) (st : State e) {nodes : List (String × V)}
      → (range m st).0 ≡ done nodes
      → length (map (λ x. x.0) nodes) ≡ len m
  unfolding actions len
  length-range law {V} m st {nodes} h =
      let same : (e.range_order (String × V) (entries m) st.w).0 ≡ nodes = ground arith in
      rw (← same) (length-map (λ x. x.0) _ ∙ length-perm (law.perm (String × V) (entries m) st.w))

  -- What is known of the loop's result, over the nodes in the order of the range.
  abbrev pub LoopGives : SosreportReconciler → Sosreport → (List String → Type 0) → Type 0
  LoopGives r s P =
      (environment : StringMap) (names new : List String) (st : State e)
      → At r s st
      → length names ≡ len (get_map r.job_to_run_list s.metadata.uid)
      → (start_loop e environment (max_new_sosreports r s.metadata.uid) 0 [] names st).0 ≡ done new
      → P new

  run_with_started :
      RangeIsPerm e
      → (r : SosreportReconciler) (s : Sosreport) (P : List String → Type 0) (req : NamespacedName)
        (st : State e) {x : Bool × Option Error}
      → LoopGives r s P
      → At r s st
      → (run_with e r s req st).0 ≡ done x
      → (started : List String) × Ran r (run_with e r s req st).1.r s.metadata.uid started
        × P started
  unfolding run_with
  run_with_started law r s P req st gives here h =
      let m = get_map r.job_to_run_list s.metadata.uid in
      let (environment, ran₁, rest₁) = bind-returns (get_env_configuration e req) _ st h in
      let st₁ = (get_env_configuration e req st).1 in
      let at₁ = (At-get_env_configuration r s req).at st here in
      let h₁ = rw rest₁ at h in
      let (nodes, ran₂, rest₂) = bind-returns (range m) _ st₁ h₁ in
      let at₂ = (At-range r s m).at st₁ at₁ in
      let names = map (λ k. k.0) nodes in
      let (new, ran, loop) =
        start_and_record-Ran s.metadata.uid req environment r names s (range m st₁).1 at₂
          (λ k. contains-range law m st₁ k ran₂) (rw rest₂ at h₁) in
      (
        new,
        rw (rest₁, rest₂) ran,
        gives environment names new (range m st₁).1 at₂ (length-range law m st₁ ran₂) loop,
      )

  pub run_sosreport_jobs_started :
      RangeIsPerm e
      → (P : List String → Type 0) (req : NamespacedName) (st : State e) {x : Bool × Option Error}
      → LoopGives st.r st.s P
      → (run_sosreport_jobs e req st).0 ≡ done x
      → (started : List String) × Ran st.r
          (run_sosreport_jobs e req st).1.r
          st.s.metadata.uid
          started
        × P started
  run_sosreport_jobs_started law P req st gives h = rw run_sosreport_jobs-eq (
      run_with_started law st.r st.s P req st gives (record { reconciler = refl; sosreport = refl })
        (rw run_sosreport_jobs-eq at h))

  -- If runSosreportJobs returns, some nodes of the Sosreport's list of jobs to run have gone from
  -- that list to its list of running jobs, no more of them than the concurrency less the jobs that
  -- ran before, or none where that is negative, and nothing else has changed in the reconciler. This
  -- assumes that a range visits every entry of a map once.
  pub run_sosreport_jobs-Ran :
      RangeIsPerm e
      → (req : NamespacedName) (st : State e) {x : Bool × Option Error}
      → (run_sosreport_jobs e req st).0 ≡ done x
      → (started : List String) × Ran st.r
          (run_sosreport_jobs e req st).1.r
          st.s.metadata.uid
          started
  run_sosreport_jobs-Ran law req st h =
      let (started, ran, any) =
        run_sosreport_jobs_started law (λ started. Unit) req st
          (λ environment names new st' here size loop. tt) h in
      (started, ran)
