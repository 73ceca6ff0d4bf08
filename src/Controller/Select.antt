-- ===== src/Controller/Select.antt =====
-- Which nodes and jobs belong to a Sosreport: tolerates, objectGetController, isJobDone and
-- getSosreportJobs of controllers/sosreport_controller.go.
pub mod Tolerance
pub mod Ownership
use sosreport_operator.Prelude.{
  ℕ, ◌+◌, ◌-◌, String, Bool, true, false, ◌&&◌, ◌||◌, Option, none, some, List, [], ◌∷◌, ◌==◌,
  length, nat_eq, if◌then◌else◌,
}
use sosreport_operator.Exec.{Exec, Outcome, done, panic, ◌>>=◌}
use sosreport_operator.Api.{OwnerReference, Taint, Toleration, JobCondition, Job, NamespacedName}
use sosreport_operator.Env.{Env, Result, ok, err}
use sosreport_operator.Controller.State.{State, call, get_s, return}

-- objectGetController; it reads through the pointer `Controller`, and panics where that is nil
unfoldable pub object_get_controller : List OwnerReference → Outcome (Option OwnerReference)
object_get_controller [] = done none
object_get_controller (o ∷ os) =
    let rest = object_get_controller os in
    elim o.controller [ none ↦ panic | some c ↦ if c then done (some o) else rest ]

-- isJobDone, on the conditions of the job
unfoldable pub is_job_done : List JobCondition → Bool × String
is_job_done [] = (false, "")
is_job_done (c ∷ cs) =
    let rest = is_job_done cs in
    if (c.type_ == "Complete" || c.type_ == "Failed") && c.status == "True"
    then (true, c.type_)
    else rest

-- the test on an owner reference in the loop of getSosreportJobs
unfoldable pub is_owned_by : String → Option OwnerReference → Bool
is_owned_by uid none = false
is_owned_by uid (some o) = o.kind == "Sosreport" && o.uid == uid

keep_job : Bool → Job → Outcome (List Job) → Outcome (List Job)
keep_job b j panic = panic
keep_job b j (done js) = done (if b then j ∷ js else js)

-- the loop of getSosreportJobs
unfoldable pub owned_jobs : String → List Job → Outcome (List Job)
unfolding keep_job
owned_jobs uid [] = done []
owned_jobs uid (j ∷ js) =
    let rest = owned_jobs uid js in
    elim (object_get_controller j.metadata.owner_references) [
      | panic ↦ panic
      | done o ↦ keep_job (is_owned_by uid o) j rest
    ]

module _ (e : Env) where
  -- The inner loop of tolerates over the tolerations, at index `ti` of `n`: false where it returns
  -- false, true where it breaks or ends.
  unfoldable pub tolerates_taint_loop : ℕ → ℕ → List Toleration → Taint → Bool
  tolerates_taint_loop n ti [] taint = true
  tolerates_taint_loop n ti (t ∷ ts) taint =
      let rest = tolerates_taint_loop n (ti + 1) ts taint in
      if e.tolerates_taint t taint then true else if nat_eq ti (n - 1) then false else rest

  -- tolerates, on the tolerations of the Sosreport and the taints of the node
  unfoldable pub tolerates : List Toleration → List Taint → Bool
  tolerates ts [] = true
  tolerates ts (taint ∷ taints) =
      let rest = tolerates ts taints in
      if nat_eq (length ts) 0
      then false
      else if tolerates_taint_loop (length ts) 0 ts taint
      then rest
      else false

  unfoldable pub or_owned : Outcome (List Job) → Exec (State e) (Result (List Job))
  or_owned panic st = (panic, st)
  or_owned (done owned) st = (done (ok owned), st)

  unfoldable pub listed_jobs : String → Result (List Job) → Exec (State e) (Result (List Job))
  listed_jobs uid (err x) = return (err x)
  listed_jobs uid (ok js) = or_owned (owned_jobs uid js)

  -- getSosreportJobs
  unfoldable pub get_sosreport_jobs : NamespacedName → Exec (State e) (Result (List Job))
  get_sosreport_jobs req = do
    all ← call e (e.list_jobs req.namespace)
    s ← get_s
    listed_jobs s.metadata.uid all
