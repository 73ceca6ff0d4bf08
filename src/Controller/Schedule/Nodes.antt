-- ===== src/Controller/Schedule/Nodes.antt =====
-- What scheduleSosreportJobs of controllers/sosreport_controller.go puts on the list of jobs to
-- run.
use sosreport_operator.Prelude.{
  ◌≤◌, length, String, ◌≡◌, some, List, map, ◌==◌, select, contains, if◌then◌else◌,
}
use sosreport_operator.GoMap.{get, get_map, len}
use sosreport_operator.GoMap.Sets.{holds}
use sosreport_operator.Json.{marshal}
use sosreport_operator.Api.{Sosreport, Node, Toleration}
use sosreport_operator.Env.{Env}
use sosreport_operator.Controller.State.{State}
use sosreport_operator.Controller.Select.{tolerates}
use sosreport_operator.Controller.Update.{update}
use sosreport_operator.Controller.Schedule.{hostname}

module _ (e : Env) where
  -- the host names of the nodes that the Sosreport tolerates
  abbrev pub eligible : List Toleration → List Node → List String
  eligible ts nodes = map hostname (select (λ n. tolerates e ts n.taints) nodes)

  -- From `st` to `st'` the given nodes have been scheduled: they are the Sosreport's list of jobs to
  -- run, which is no longer than they are, its annotation for that list was written and sent to the server, and nothing else has
  -- changed in the reconciler.
  pub record Scheduled (nodes : List String) (st st' : State e) : Type 0 where
    pub to_run :
        (v k : String)
        → holds st'.r.job_to_run_list v k
          ≡ (if st.s.metadata.uid == v then contains k nodes else holds st.r.job_to_run_list v k)
    pub size : len (get_map st'.r.job_to_run_list st.s.metadata.uid) ≤ length nodes
    pub others : st'.r ≡ record (st.r) { job_to_run_list = st'.r.job_to_run_list }
    pub sent : Sosreport
    pub sent_at : e.World
    pub answered : st'.s ≡ (e.update sent sent_at).0.1
    pub annotated :
        get sent.metadata.annotations "job-to-run-list"
        ≡ some (marshal (get_map st'.r.job_to_run_list st.s.metadata.uid))
    pub same_status : sent.status ≡ st.s.status
