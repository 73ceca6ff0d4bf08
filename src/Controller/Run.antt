-- ===== src/Controller/Run.antt =====
-- runSosreportJobs of controllers/sosreport_controller.go.
pub mod Move
pub mod Loop
pub mod Effect
pub mod Bound
pub mod Crash
pub mod Made
pub mod Total
pub mod Saved
pub mod Restart
pub mod Entries
pub mod Fill
pub mod Progress
pub mod Idle
pub mod Created
pub mod Launches
use sosreport_operator.Prelude.{
  ℕ, ◌+◌, String, ◌<>◌, Bool, true, false, ◌||◌, Option, none, some, List, [], ◌∷◌, ◌++◌, map, ◌==◌,
  ℤ, to_int64, minus, at_least, if◌then◌else◌,
}
use sosreport_operator.GoMap.{
  StringMap, nil_map, made, assign, len, get_map, get_text, delete_in, assign_in,
}
use sosreport_operator.Json.{marshal}
use sosreport_operator.Exec.{Exec, ◌>>=◌, ◌>>◌}
use sosreport_operator.Api.{Sosreport, Job, PersistentVolumeClaim, NamespacedName}
use sosreport_operator.Env.{Env, Error, Result, ok, err}
use sosreport_operator.Controller.State.{
  SosreportReconciler, State, call, get_r, get_s, set_r, set_s, return, or_crash, range,
}
use sosreport_operator.Controller.Config.{get_env_configuration}
use sosreport_operator.Controller.Template.{job_for_sosreport}
use sosreport_operator.Controller.Update.{update}
use sosreport_operator.Controller.Schedule.{annotate}

-- `r.sosreportConcurrency - len(r.jobRunningList[s.UID])`, in Go's `int`
unfoldable pub max_new_sosreports : SosreportReconciler → String → ℤ
max_new_sosreports r uid =
    to_int64 (minus r.sosreport_concurrency (len (get_map r.job_running_list uid)))

-- The running list of the Sosreport is made if it is nil.
unfoldable pub make_running : SosreportReconciler → String → Option SosreportReconciler
make_running r uid = elim (get_map r.job_running_list uid) [
  | made l ↦ some r
  | nil_map ↦ elim (assign r.job_running_list uid (made [])) [
    | none ↦ none
    | some m ↦ some (record r { job_running_list = m })
  ]
]

-- the loop that moves the started nodes from one list to the other
unfoldable pub move_nodes : SosreportReconciler → String → List String → Option SosreportReconciler
move_nodes r uid [] = some r
move_nodes r uid (n ∷ ns) = elim (assign_in r.job_running_list uid n) [
  | none ↦ none
  | some m ↦
      move_nodes
        (record r { job_running_list = m; job_to_run_list = delete_in r.job_to_run_list uid n }) uid
        ns
]

-- An annotation is set if it differs; whether it did, beside the Sosreport.
unfoldable pub refresh_annotation : Sosreport → String → String → Option (Bool × Sosreport)
refresh_annotation s k j =
    if get_text s.metadata.annotations k == j
    then some (false, s)
    else elim (annotate s k j) [ none ↦ none | some s' ↦ some (true, s') ]

module _ (e : Env) where
  -- after the job was created, or could not be
  unfoldable pub job_created : String → Option Error → Exec (State e) Bool
  job_created node (some x) = return false
  job_created node none = do
    s ← get_s
    call e (λ w. (tt, e.event s "Sosreport job started" ("Sosreport started on " <> node) w))
    return true

  -- after the claim was created, or could not be
  unfoldable pub pvc_created : String → Job → Option Error → Exec (State e) Bool
  pvc_created node job (some x) = return false
  pvc_created node job none = do failed ← call e (e.create_job job); job_created node failed

  unfoldable pub create_both : String → Result (Job × PersistentVolumeClaim) → Exec (State e) Bool
  create_both node (err x) = return false
  create_both node (ok (job, pvc)) = do
    failed ← call e (e.create_pvc pvc)
    pvc_created node job failed

  -- The body of the loop over the nodes: whether the node's job was started. Each `continue` of the
  -- source leaves it with false.
  unfoldable pub start_job : StringMap → String → Exec (State e) Bool
  start_job environment node = do job ← job_for_sosreport e node environment; create_both node job

  -- The loop over the nodes, with its counter and newRunningNodes.
  unfoldable pub start_loop :
      StringMap → ℤ → ℕ → List String → List String → Exec (State e) (List String)
  start_loop environment limit i new [] = return new
  start_loop environment limit i new (n ∷ ns) = if at_least i limit then return new else (do
    started ← start_job environment n
    start_loop environment limit (if started then i + 1 else i)
        (if started then new ++ (n ∷ []) else new) ns)

  -- the started nodes move from one list to the other
  unfoldable pub move_started : String → List String → Exec (State e) (Unit {0})
  move_started uid new = do
    r ← get_r
    r ← or_crash (make_running r uid)
    r ← or_crash (move_nodes r uid new)
    set_r r

  -- both annotations are brought up to date, and the Sosreport is updated if one has changed
  unfoldable pub annotate_lists : NamespacedName → Exec (State e) (Unit {0})
  annotate_lists req = do
    s ← get_s
    r ← get_r
    first ← or_crash (
        refresh_annotation s "job-to-run-list" (marshal (get_map r.job_to_run_list s.metadata.uid)))
    set_s first.1
    second ← or_crash (
        refresh_annotation first.1 "job-running-list"
          (marshal (get_map r.job_running_list s.metadata.uid)))
    set_s second.1
    if first.0 || second.0 then update e req else return tt

  -- runSosreportJobs, from the reconciler and the Sosreport as it finds them
  unfoldable pub run_with :
      SosreportReconciler → Sosreport → NamespacedName → Exec (State e) (Bool × Option Error)
  run_with r s req = do
    environment ← get_env_configuration e req
    nodes ← range (get_map r.job_to_run_list s.metadata.uid)
    new ← start_loop environment (max_new_sosreports r s.metadata.uid) 0 [] (map (λ k. k.0) nodes)
    move_started s.metadata.uid new
    annotate_lists req
    return (true, none)

  -- runSosreportJobs; its results are `true` and nil whenever it returns
  unfoldable pub run_sosreport_jobs : NamespacedName → Exec (State e) (Bool × Option Error)
  run_sosreport_jobs req = do r ← get_r; s ← get_s; run_with r s req
