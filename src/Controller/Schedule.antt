-- ===== src/Controller/Schedule.antt =====
-- scheduleSosreportJobs of controllers/sosreport_controller.go.
pub mod Nodes
use sosreport_operator.Prelude.{
  String, Bool, true, false, Option, none, some, List, [], ◌∷◌, if◌then◌else◌,
}
use sosreport_operator.GoMap.{NodeSet, made, assign, or_made, get_text}
use sosreport_operator.Json.{marshal}
use sosreport_operator.Exec.{Exec, ◌>>=◌, ◌>>◌}
use sosreport_operator.Api.{Sosreport, Node, NamespacedName, Toleration}
use sosreport_operator.Env.{Env, Error, Result, ok, err}
use sosreport_operator.Controller.State.{State, call, get_r, get_s, set_r, set_s, return, or_crash}
use sosreport_operator.Controller.Select.{tolerates}
use sosreport_operator.Controller.Update.{update}

-- `s.Annotations[k] = v`, as the statement stands; `none` is the panic at nil annotations
unfoldable pub annotate : Sosreport → String → String → Option Sosreport
annotate s k v = elim (assign s.metadata.annotations k v) [
  | none ↦ none
  | some m ↦ some (record s { metadata = record (s.metadata) { annotations = m } })
]

-- `if s.Annotations == nil { s.Annotations = make(...) }`
unfoldable pub make_annotations : Sosreport → Sosreport
make_annotations s = record s {
  metadata = record (s.metadata) { annotations = or_made s.metadata.annotations };
}

unfoldable pub hostname : Node → String
hostname n = get_text n.metadata.labels "kubernetes.io/hostname"

and_then : Option NodeSet → (NodeSet → Option NodeSet) → Option NodeSet
and_then none f = none
and_then (some m) f = f m

module _ (e : Env) where
  -- the loop over the nodes, from the names set so far
  unfoldable pub node_names : List Toleration → List Node → NodeSet → Option NodeSet
  unfolding and_then
  node_names ts [] names = some names
  node_names ts (n ∷ ns) names =
      and_then (if tolerates e ts n.taints then assign names (hostname n) tt else some names)
        (node_names ts ns)

  -- what scheduleSosreportJobs does with the list of nodes
  unfoldable pub schedule_on :
      NamespacedName → Result (List Node) → Exec (State e) (Bool × Option Error)
  schedule_on req (err x) = return (false, some x)
  schedule_on req (ok []) = return (false, none)
  schedule_on req (ok (n ∷ ns)) = do
    s ← get_s
    names ← or_crash (node_names s.spec.tolerations (n ∷ ns) (made []))
    r ← get_r
    lists ← or_crash (assign r.job_to_run_list s.metadata.uid names)
    set_r (record r { job_to_run_list = lists })
    s' ← or_crash (annotate (make_annotations s) "job-to-run-list" (marshal names))
    set_s s'
    update e req
    return (true, none)

  -- scheduleSosreportJobs
  unfoldable pub schedule_sosreport_jobs : NamespacedName → Exec (State e) (Bool × Option Error)
  schedule_sosreport_jobs req = do
    s ← get_s
    nodes ← call e (e.list_nodes s.spec.node_selector)
    schedule_on req nodes
