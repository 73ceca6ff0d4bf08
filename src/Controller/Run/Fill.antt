-- ===== src/Controller/Run/Fill.antt =====
-- The loop of runSosreportJobs of controllers/sosreport_controller.go where every Job and claim can be
-- made and created: it fills the slots that are free.
use Prim.Native.Nat.{min}
use sosreport_operator.Prelude.{
  ℕ, suc, ◌+◌, ◌-◌, ◌≤◌, String, ◌≡◌, refl, Bool, true, false, count, some, List, [], ◌∷◌, ◌++◌,
  arith, ℤ, pos, negsuc, at_least, length, length-append, Bool-cases, inl, inr, if◌then◌else◌,
}
use sosreport_operator.GoMap.{StringMap}
use sosreport_operator.Exec.{done}
use sosreport_operator.Exec.Rules.{bind_of_done}
use sosreport_operator.Exec.Total.{Returns, Returns-bind}
use sosreport_operator.Api.{Sosreport, Job, PersistentVolumeClaim}
use sosreport_operator.Env.{Env, Result, ok, err, CreatesObjects}
use sosreport_operator.Controller.State.{SosreportReconciler, State, actions}
use sosreport_operator.Controller.Frame.{At, At-job_for_sosreport, At-start_job}
use sosreport_operator.Controller.Template.Works.{IsOk, WorkingTemplate, job_for_sosreport-Ok}
use sosreport_operator.Controller.Run.{job_created, pvc_created, create_both, start_job, start_loop}

-- how many jobs may start under a limit, which is negative where more run than may
abbrev pub slots : ℤ → ℕ
slots (pos l) = l
slots (negsuc l) = 0

no_room : (limit : ℤ) (i : ℕ) → at_least i limit ≡ true → slots limit - i ≡ 0
no_room (pos l) i h = ground arith
no_room (negsuc l) i h = omega arith

a_slot :
    (limit : ℤ) (i : ℕ) → at_least i limit ≡ false → slots limit - i ≡ suc (slots limit - (i + 1))
a_slot (pos l) i h = ground arith
a_slot (negsuc l) i h = cc

abbrev pub IsTrue : Bool → Type 0
IsTrue b = b ≡ true

module _ (e : Env) (r : SosreportReconciler) (s : Sosreport) (creates : CreatesObjects e) where
  create_both-True :
      (node : String) (o : Result (Job × PersistentVolumeClaim))
      → IsOk o
      → Returns (At {e = e} r s) IsTrue (create_both e node o)
  unfolding create_both pvc_created job_created actions
  create_both-True node (err x) h = absurd h
  create_both-True node (ok (job, pvc)) h = record {
    run = λ st here. (true, rw (creates.pvc pvc st.w) (rw (creates.job job _) refl), refl);
  }

  module _ (short : count s.metadata.name ≤ 43) {capacity : String}
      (parsed : e.parse_quantity r.pvc_capacity ≡ some capacity)
      (works : WorkingTemplate e "sosreport.yaml") (environment : StringMap) where
    start_job-True :
        (node : String) → Returns (At {e = e} r s) IsTrue (start_job e environment node)
    unfolding start_job
    start_job-True node =
        Returns-bind _ (create_both e node)
          (job_for_sosreport-Ok e r s node environment capacity short parsed works)
          (At-job_for_sosreport r s node environment) λ o given. create_both-True node o given

    -- every node is started until the limit is reached
    pub start_loop-fills :
        (limit : ℤ) (i : ℕ) (new nodes : List String) (st : State e)
        → At {e = e} r s st
        → (new' : List String) × ((start_loop e environment limit i new nodes st).0 ≡ done new')
          × (length new' ≡ length new + min (slots limit - i) (length nodes))
    unfolding start_loop actions
    start_loop-fills limit i new [] st here = (new, refl, omega arith)
    start_loop-fills limit i new (n ∷ ns) st here = elim (Bool-cases (at_least i limit)) [
      | inl full ↦ (new, rw full refl, omega (arith, no_room limit i full))
      | inr room ↦
          let (b, ran, yes') = (start_job-True n).run st here in
          let st' = (start_job e environment n st).1 in
          let there = (At-start_job r s environment n).at st here in
          let (new', rest, size) = start_loop-fills limit (i + 1) (new ++ (n ∷ [])) ns st' there in
          let next = λ (b' : Bool).
            start_loop e environment limit (if b' then i + 1 else i)
              (if b' then new ++ (n ∷ []) else new) ns in
          (
            new',
            rw room (rw (bind_of_done (start_job e environment n) next st (rw yes' at ran)) rest),
            omega (arith, size, a_slot limit i room, length-append new (n ∷ [])),
          )
    ]
