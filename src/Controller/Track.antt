-- ===== src/Controller/Track.antt =====
-- Keeping track of the jobs: synchronizeJobRunningCache, dequeueSosreportJobsDone,
-- synchronizeRunningStatus, isSosreportJobsDone and init of
-- controllers/sosreport_controller.go.
pub mod Dequeue
pub mod Done
pub mod Restart
pub mod Status
pub mod Bounded
pub mod Cache
pub mod Retired
pub mod Idle
use sosreport_operator.Prelude.{
  String, ◌<>◌, Bool, true, false, not, ◌&&◌, ◌||◌, Option, none, some, List, [], ◌∷◌, map, ◌==◌,
  nat_eq, if◌then◌else◌,
}
use sosreport_operator.GoMap.{
  GoMap, NodeSet, get, assign, len, has, get_map, or_made, get_text, delete_in,
}
use sosreport_operator.Json.{marshal, unmarshal}
use sosreport_operator.Exec.{Exec, ◌>>=◌, ◌>>◌}
use sosreport_operator.Api.{Job, NamespacedName}
use sosreport_operator.Env.{Env, Error, Result, ok, err}
use sosreport_operator.Controller.State.{
  SosreportReconciler, State, call, get_r, get_s, set_r, set_s, return, or_crash, range,
}
use sosreport_operator.Controller.Select.{is_job_done, get_sosreport_jobs}
use sosreport_operator.Controller.Update.{update}
use sosreport_operator.Controller.Schedule.{annotate, make_annotations}

-- init
unfoldable pub init_maps : SosreportReconciler → SosreportReconciler
init_maps r = record r {
  run_list = or_made r.run_list;
  job_to_run_list = or_made r.job_to_run_list;
  job_running_list = or_made r.job_running_list;
}

-- One half of synchronizeJobRunningCache: the annotation is read into the cache if the cache has no
-- entry for the Sosreport. A text that cannot be read is an error.
pub data Loaded : Type 0 where
  loaded : Option (GoMap NodeSet) → Loaded
  unreadable : Loaded

store_annotation : GoMap NodeSet → String → Option NodeSet → Loaded
store_annotation cache uid none = unreadable
store_annotation cache uid (some names) = loaded (assign cache uid names)

unfoldable pub load_annotation : GoMap NodeSet → String → Option String → Loaded
unfolding store_annotation
load_annotation cache uid annotation =
    if has cache uid then loaded (some cache) else elim annotation [
      | none ↦ loaded (some cache)
      | some json ↦ store_annotation cache uid (unmarshal json)
    ]

-- the test and the deletion for a job that is done
unfoldable pub finish_node : SosreportReconciler → String → String → SosreportReconciler
finish_node r uid node = record r { job_running_list = delete_in r.job_running_list uid node }

unfoldable pub node_of : Job → String
node_of j = get_text j.metadata.annotations "nodeName"

-- the names in an annotation, if it is there and can be read
unfoldable pub annotated_names : Option String → NodeSet
annotated_names none = GoMap.nil_map
annotated_names (some json) = elim (unmarshal json) [ none ↦ GoMap.nil_map | some names ↦ names ]

-- the test of isSosreportJobsDone
unfoldable pub is_done : SosreportReconciler → String → Bool
is_done r uid =
    (not (has r.job_to_run_list uid) || nat_eq (len (get_map r.job_to_run_list uid)) 0)
    && (not (has r.job_running_list uid) || nat_eq (len (get_map r.job_running_list uid)) 0)

module _ (e : Env) where
  -- the first half of synchronizeJobRunningCache
  unfoldable pub load_job_to_run_list : Loaded → Exec (State e) (Option Error)
  load_job_to_run_list unreadable = return (some "job-to-run-list")
  load_job_to_run_list (loaded cache) = do
    m ← or_crash cache
    r ← get_r
    set_r (record r { job_to_run_list = m })
    return none

  -- the second half
  unfoldable pub load_job_running_list : Loaded → Exec (State e) (Option Error)
  load_job_running_list unreadable = return (some "job-running-list")
  load_job_running_list (loaded cache) = do
    m ← or_crash cache
    r ← get_r
    set_r (record r { job_running_list = m })
    return none

  -- synchronizeJobRunningCache; an error of the first half ends it
  unfoldable pub synchronize_job_running_cache : Exec (State e) (Option Error)
  synchronize_job_running_cache = do
    r ← get_r
    s ← get_s
    first ← load_job_to_run_list (
        load_annotation r.job_to_run_list s.metadata.uid
          (get s.metadata.annotations "job-to-run-list"))
    elim first [
      | some x ↦ return (some x)
      | none ↦ load_job_running_list (
          load_annotation r.job_running_list s.metadata.uid
            (get s.metadata.annotations "job-running-list"))
    ]

  -- what dequeueSosreportJobsDone does with a job that is done
  unfoldable pub retire_job : Job → Exec (State e) (Unit {0})
  retire_job j = do
    r ← get_r
    s ← get_s
    if has (get_map r.job_running_list s.metadata.uid) (node_of j)
        then (do
          call e (λ w.
              (tt, e.event s "Sosreport finished" ("Sosreport " <> (node_of j <> " finished")) w))
          set_r (finish_node r s.metadata.uid (node_of j)))
        else return tt

  -- the body of the loop of dequeueSosreportJobsDone
  unfoldable pub dequeue_job : Job → Exec (State e) (Unit {0})
  dequeue_job j = if (is_job_done j.conditions).0 then retire_job j else return tt

  unfoldable pub dequeue_loop : List Job → Exec (State e) (Unit {0})
  dequeue_loop [] = return tt
  dequeue_loop (j ∷ js) = do dequeue_job j; dequeue_loop js

  -- the annotation of the running list, brought up to date
  unfoldable pub annotate_running : NamespacedName → Exec (State e) (Unit {0})
  annotate_running req = do
    r ← get_r
    s ← get_s
    let j = marshal (get_map r.job_running_list s.metadata.uid)
    set_s (make_annotations s)
    if get_text s.metadata.annotations "job-running-list" == j then return tt else (do
      s' ← or_crash (annotate (make_annotations s) "job-running-list" j)
      set_s s'
      update e req)

  unfoldable pub dequeue_all : NamespacedName → Result (List Job) → Exec (State e) (Option Error)
  dequeue_all req (err x) = return (some x)
  dequeue_all req (ok js) = do dequeue_loop js; annotate_running req; return none

  -- dequeueSosreportJobsDone
  unfoldable pub dequeue_sosreport_jobs_done : NamespacedName → Exec (State e) (Option Error)
  dequeue_sosreport_jobs_done req = do jobs ← get_sosreport_jobs e req; dequeue_all req jobs

  -- synchronizeRunningStatus
  unfoldable pub synchronize_running_status : Exec (State e) (Unit {0})
  synchronize_running_status = do
    s ← get_s
    running ← range (annotated_names (get s.metadata.annotations "job-running-list"))
    to_run ← range (annotated_names (get s.metadata.annotations "job-to-run-list"))
    set_s (record s {
      status = record (s.status) {
        currently_running_nodes = map (λ k. k.0) running;
        outstanding_nodes = map (λ k. k.0) to_run;
      };
    })

  -- isSosreportJobsDone
  unfoldable pub is_sosreport_jobs_done : Exec (State e) Bool
  is_sosreport_jobs_done = do
    r ← get_r
    s ← get_s
    if is_done r s.metadata.uid
        then (do
          call e (λ w. (tt, e.event s "Sosreports finished" "All Sosreports finished" w))
          return true)
        else return false
