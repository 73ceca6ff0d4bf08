-- ===== src/Controller/Run/Crash.antt =====
-- When the loop of runSosreportJobs of controllers/sosreport_controller.go panics.
use sosreport_operator.Prelude.{
  ℕ, ◌<◌, ◌⊎◌, inl, inr, String, ◌≡◌, false, count, none, List, ◌∷◌, arith, ℤ, at_least,
}
use sosreport_operator.GoMap.{StringMap}
use sosreport_operator.Exec.{panic}
use sosreport_operator.Env.{Env}
use sosreport_operator.Controller.State.{State, actions}
use sosreport_operator.Controller.Template.{job_for_sosreport}
use sosreport_operator.Controller.Template.Manifest.{long_name_panics, bad_capacity_panics}
use sosreport_operator.Controller.Run.{start_job, start_loop}

module _ (e : Env) (environment : StringMap) where
  -- what no job can be built with: a long name, or a capacity that is no quantity
  abbrev pub IsUnfit : State e → Type 0
  IsUnfit st = (43 < count st.s.metadata.name) ⊎ (e.parse_quantity st.r.pvc_capacity ≡ none)

  job_panics :
      (node : String) (st : State e)
      → IsUnfit st
      → (job_for_sosreport e node environment st).0 ≡ panic
  job_panics node st (inl h) = long_name_panics e node environment st h
  job_panics node st (inr h) = bad_capacity_panics e node environment st h

  -- If the name of the Sosreport has more than 43 characters, or the configured capacity is no
  -- quantity, the loop over the nodes panics at the first node for which there is room.
  pub start_loop_panics :
      (limit : ℤ) (i : ℕ) (new : List String) (n : String) (ns : List String) (st : State e)
      → at_least i limit ≡ false
      → IsUnfit st
      → (start_loop e environment limit i new (n ∷ ns) st).0 ≡ panic
  unfolding start_loop start_job actions
  start_loop_panics limit i new n ns st room unfit = rw room (ground (arith, job_panics n st unfit))
