-- ===== src/Controller/Reconcile.antt =====
-- Reconcile of controllers/sosreport_controller.go.
pub mod Branches
pub mod Configure
pub mod Concurrency
pub mod Call
use sosreport_operator.Prelude.{Bool, true, false, not, ◌&&◌, Option, none, some, if◌then◌else◌}
use sosreport_operator.GoMap.{has, assign}
use sosreport_operator.Exec.{Exec, ◌>>=◌, ◌>>◌}
use sosreport_operator.Api.{Sosreport, NamespacedName}
use sosreport_operator.Env.{Env, Error, Result, ok, err}
use sosreport_operator.Controller.State.{
  State, call, get_r, get_s, set_r, set_s, return, or_crash, is_developer_mode,
}
use sosreport_operator.Controller.Config.{set_global_configuration, set_development_configuration}
use sosreport_operator.Controller.Schedule.{schedule_sosreport_jobs}
use sosreport_operator.Controller.Track.{
  init_maps, synchronize_job_running_cache, dequeue_sosreport_jobs_done, synchronize_running_status,
  is_sosreport_jobs_done,
}
use sosreport_operator.Controller.Run.{run_sosreport_jobs}
use sosreport_operator.Controller.Update.{update_status}

-- `sosreport.Status.InProgress = b`
unfoldable pub set_in_progress : Bool → Sosreport → Sosreport
set_in_progress b s = record s { status = record (s.status) { in_progress = b } }

-- the Status of a Sosreport whose jobs are done
unfoldable pub set_finished : Sosreport → Sosreport
set_finished s = record s { status = record (s.status) { in_progress = false; finished = true } }

module _ (e : Env) where
  -- what follows scheduleSosreportJobs: its first result is assigned before its error is looked at
  unfoldable pub after_schedule :
      NamespacedName → Bool × Option Error → Exec (State e) (Option Error)
  after_schedule req (progress, failed) = do
    s ← get_s
    set_s (set_in_progress progress s)
    elim failed [ some x ↦ return (some x) | none ↦ do update_status e req; return none ]

  -- the branch of Reconcile that starts a Sosreport
  unfoldable pub start : NamespacedName → Exec (State e) (Option Error)
  start req = do
    r ← get_r
    s ← get_s
    run_list ← or_crash (assign r.run_list s.metadata.uid tt)
    set_r (record r { run_list = run_list })
    result ← schedule_sosreport_jobs e req
    after_schedule req result

  -- the status of a Sosreport that was started before
  unfoldable pub settle : Exec (State e) (Unit {0})
  settle = do
    synchronize_running_status e
    all_done ← is_sosreport_jobs_done e
    s ← get_s
    set_s (if all_done then set_finished s else s)

  -- the end of that branch
  unfoldable pub conclude : NamespacedName → Exec (State e) (Option Error)
  conclude req = do settle; update_status e req; return none

  -- The branch of Reconcile for a Sosreport that was started before. The errors of the first two
  -- calls are logged and dropped; runSosreportJobs has no error.
  unfoldable pub progress : NamespacedName → Exec (State e) (Option Error)
  progress req = do
    synced ← synchronize_job_running_cache e
    dequeued ← dequeue_sosreport_jobs_done e req
    ran ← run_sosreport_jobs e req
    elim ran.1 [ some x ↦ return (some x) | none ↦ conclude req ]

  -- Reconcile after it has read its configuration
  unfoldable pub dispatch : NamespacedName → Exec (State e) (Option Error)
  dispatch req = do
    r ← get_r
    s ← get_s
    if not (has r.run_list s.metadata.uid) && not s.status.in_progress
        then start req
        else progress req

  unfoldable pub configure : NamespacedName → Exec (State e) (Unit {0})
  configure req = do
    r ← get_r
    set_r (init_maps r)
    set_global_configuration e req
    if is_developer_mode then set_development_configuration e req else return tt

  unfoldable pub reconcile_found : NamespacedName → Result Sosreport → Exec (State e) (Option Error)
  reconcile_found req (err x) = return none
  reconcile_found req (ok s) = do
    set_s s
    if s.status.finished then return none else (do configure req; dispatch req)

  -- Reconcile: its error; the other result is empty on every path
  unfoldable pub reconcile : NamespacedName → Exec (State e) (Option Error)
  reconcile req = do found ← call e (e.get_sosreport req); reconcile_found req found
