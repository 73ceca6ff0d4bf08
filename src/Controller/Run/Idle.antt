-- ===== src/Controller/Run/Idle.antt =====
-- A call of runSosreportJobs of controllers/sosreport_controller.go while no node of the Sosreport waits.
use sosreport_operator.Prelude.{
  String, ◌≡◌, refl, ◌∙◌, Bool, true, Option, none, List, [], ◌∷◌, arith, map, length, ℤ, nat_eq,
}
use sosreport_operator.GoMap.{NodeSet, StringMap, made, entries, get_map, len}
use sosreport_operator.Exec.{done}
use sosreport_operator.Exec.Total.{Returns, Returns-bind}
use sosreport_operator.Api.{Sosreport, NamespacedName}
use sosreport_operator.Env.{Env, Error, RangeIsPerm}
use sosreport_operator.Controller.State.{SosreportReconciler, State, range, actions}
use sosreport_operator.Controller.Frame.{At, At-get_env_configuration, At-range, At-start_loop}
use sosreport_operator.Controller.Track.Done.{IsEmpty, zero_len}
use sosreport_operator.Controller.Run.{start_loop, max_new_sosreports, run_with, run_sosreport_jobs}
use sosreport_operator.Controller.Run.Effect.{length-range}
use sosreport_operator.Controller.Run.Total.{record_lists-Returns, get_env_configuration-Returns}

nil_of_length : {A : Type 0} (l : List A) → length l ≡ 0 → l ≡ []
nil_of_length [] h = refl
nil_of_length (x ∷ l) h = absurd (omega arith)

-- a list of nodes without a name
abbrev NoNames : List (String × Unit {0}) → Type 0
NoNames nodes = map (λ k. k.0) nodes ≡ []

abbrev Nothing : List String → Type 0
Nothing new = new ≡ []

zero_of : (m : NodeSet) → nat_eq (len m) 0 ≡ true → len m ≡ 0
zero_of m h = ground arith

module _ (e : Env) (r : SosreportReconciler) (s : Sosreport) where
  range-NoNames :
      RangeIsPerm e
      → IsEmpty r.job_to_run_list s.metadata.uid
      → Returns (At {e = e} r s) NoNames (range (get_map r.job_to_run_list s.metadata.uid))
  unfolding range
  range-NoNames law empty = record {
    run = λ st here.
        let m = get_map r.job_to_run_list s.metadata.uid in
        (
          (e.range_order (String × Unit {0}) (entries m) st.w).0,
          refl,
          nil_of_length _ (length-range e law m st refl ∙ zero_of m (zero_len m empty)),
        );
  }

  start_loop-Nothing :
      (environment : StringMap) (limit : ℤ) (names : List String)
      → names ≡ []
      → Returns (At {e = e} r s) Nothing (start_loop e environment limit 0 [] names)
  unfolding start_loop actions
  start_loop-Nothing environment limit [] h = record { run = λ st here. ([], refl, refl) }
  start_loop-Nothing environment limit (n ∷ ns) h = absurd (cc)

  run_with_idle :
      RangeIsPerm e
      → (req : NamespacedName) {l : List (String × NodeSet)} {a : List (String × String)}
      → IsEmpty r.job_to_run_list s.metadata.uid
      → r.job_running_list ≡ made l
      → s.metadata.annotations ≡ made a
      → Returns
          (At {e = e} r s)
          (λ (x : Bool × Option Error). x ≡ (true, none))
          (run_with e r s req)
  unfolding run_with
  run_with_idle law req {l} {a} empty is is' =
      let limit = max_new_sosreports r s.metadata.uid in
      let to_run = get_map r.job_to_run_list s.metadata.uid in
      Returns-bind _ _ (get_env_configuration-Returns e r s req) (At-get_env_configuration r s req)
        λ environment any.
          Returns-bind _ _ (range-NoNames law empty) (At-range r s to_run) λ nodes nil.
            Returns-bind _ _ (start_loop-Nothing environment limit (map (λ k. k.0) nodes) nil)
              (At-start_loop r s environment limit 0 [] (map (λ k. k.0) nodes))
              λ new nothing. record_lists-Returns e r s req l a new is is'

-- it returns
pub run_sosreport_jobs_idle :
    (e : Env)
    → RangeIsPerm e
    → (req : NamespacedName) (st : State e) {l : List (String × NodeSet)}
      {a : List (String × String)}
    → IsEmpty st.r.job_to_run_list st.s.metadata.uid
    → st.r.job_running_list ≡ made l
    → st.s.metadata.annotations ≡ made a
    → (run_sosreport_jobs e req st).0 ≡ done (true, none)
unfolding run_sosreport_jobs actions
run_sosreport_jobs_idle e law req st {l} {a} empty is is' =
    let (x, ran, same) =
      (run_with_idle e st.r st.s law req empty is is').run st
        (record { reconciler = refl; sosreport = refl }) in
    rw same at ran
