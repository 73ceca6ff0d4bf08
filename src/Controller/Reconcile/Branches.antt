-- ===== src/Controller/Reconcile/Branches.antt =====
-- Which branch Reconcile of controllers/sosreport_controller.go takes, and what it ends with.
use sosreport_operator.Prelude.{
  String, ◌≡◌, refl, true, false, not, ◌&&◌, ◌||◌, none, some, List, arith, eq_refl,
}
use sosreport_operator.GoMap.{made, assign, has}
use sosreport_operator.GoMap.Assoc.{put}
use sosreport_operator.GoMap.Sets.{has-assign}
use sosreport_operator.Exec.{done}
use sosreport_operator.Api.{Sosreport, NamespacedName}
use sosreport_operator.Env.{Env, Error, Result, ok, err}
use sosreport_operator.Controller.State.{State, actions}
use sosreport_operator.Controller.Track.{
  is_done, is_sosreport_jobs_done, synchronize_running_status,
}
use sosreport_operator.Controller.Schedule.{schedule_on, schedule_sosreport_jobs}
use sosreport_operator.Controller.Reconcile.{
  set_in_progress, set_finished, after_schedule, start, settle, progress, dispatch, reconcile_found,
  reconcile,
}

-- A Sosreport that cannot be read or is finished.
abbrev pub IsIdle : Result Sosreport → Type 0
IsIdle (err x) = Unit
IsIdle (ok s) = s.status.finished ≡ true

module _ (e : Env) (req : NamespacedName) (st : State e) where
  -- Where the Sosreport cannot be read, or the server says that it is finished, Reconcile returns
  -- without an error, leaves the reconciler alone and makes no call after that first read.
  pub reconcile_idle :
      (found : Result Sosreport) (w : e.World)
      → e.get_sosreport req st.w ≡ (found, w)
      → IsIdle found
      → ((reconcile e req st).0 ≡ done none)
        × ((reconcile e req st).1.r ≡ st.r)
        × ((reconcile e req st).1.w ≡ w)
  unfolding reconcile reconcile_found actions
  reconcile_idle (err x) w found h = ground (arith, found)
  reconcile_idle (ok s) w found h = ground (arith, found, h)

  pub dispatch_started :
      (has st.r.run_list st.s.metadata.uid || st.s.status.in_progress) ≡ true
      → dispatch e req st ≡ progress e req st
  unfolding dispatch actions
  dispatch_started h = ground arith

  pub dispatch_new :
      (has st.r.run_list st.s.metadata.uid || st.s.status.in_progress) ≡ false
      → dispatch e req st ≡ start e req st
  unfolding dispatch actions
  dispatch_new h = ground arith

  failed_start :
      (x : Error) (w : e.World) (l : List (String × Unit {0}))
      → st.r.run_list ≡ made l
      → e.list_nodes st.s.spec.node_selector st.w ≡ (err x, w)
      → ((start e req st).0 ≡ done (some x))
        × (has (start e req st).1.r.run_list st.s.metadata.uid ≡ true)
        × ((start e req st).1.s.metadata.uid ≡ st.s.metadata.uid)
        × ((start e req st).1.r.job_to_run_list ≡ st.r.job_to_run_list)
        × ((start e req st).1.r.job_running_list ≡ st.r.job_running_list)
  unfolding start schedule_sosreport_jobs schedule_on after_schedule set_in_progress actions assign
  failed_start x w l made' failed = ground (
    arith,
    made',
    failed,
    has-assign (made l) st.s.metadata.uid tt {m' = made (put st.s.metadata.uid tt l)}
        st.s.metadata.uid refl,
    eq_refl st.s.metadata.uid,
  )

  -- settle, by the test that the code makes
  pub settle_lem :
      ((settle e st).0 ≡ done tt)
      × ((settle e st).1.r ≡ st.r)
      × ((settle e st).1.s.status.finished
          ≡ (is_done st.r st.s.metadata.uid || st.s.status.finished))
      × ((settle e st).1.s.status.in_progress
          ≡ (not (is_done st.r st.s.metadata.uid) && st.s.status.in_progress))
  unfolding settle set_finished is_sosreport_jobs_done synchronize_running_status actions
  settle_lem = ground arith

-- Where the nodes cannot be listed and the runList is made, the start of a Sosreport returns that error and leaves its job
-- lists as they were, but the next call takes the branch for Sosreports that were started: its nodes
-- are not scheduled again.
pub start_failed :
    (e : Env) (req : NamespacedName) (st : State e) (x : Error) (w : e.World)
    (l : List (String × Unit {0}))
    → st.r.run_list ≡ made l
    → e.list_nodes st.s.spec.node_selector st.w ≡ (err x, w)
    → ((start e req st).0 ≡ done (some x))
      × ((start e req st).1.r.job_to_run_list ≡ st.r.job_to_run_list)
      × ((start e req st).1.r.job_running_list ≡ st.r.job_running_list)
      × (dispatch e req (start e req st).1 ≡ progress e req (start e req st).1)
start_failed e req st x w l made' failed =
    let (returned, there, same, to_run, running) = failed_start e req st x w l made' failed in
    (
      returned,
      to_run,
      running,
      dispatch_started e req (start e req st).1 (ground (arith, there, same)),
    )
