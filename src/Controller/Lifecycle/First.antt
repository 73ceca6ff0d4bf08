-- ===== src/Controller/Lifecycle/First.antt =====
-- The first call of Reconcile of controllers/sosreport_controller.go for a Sosreport.
use sosreport_operator.Prelude.{
  ◌≤◌, length, String, ◌≡◌, refl, true, ◌||◌, List, [], ◌==◌, contains, if◌then◌else◌,
}
use sosreport_operator.GoMap.{GoMap, nil_map, made, get_map, len, has, or_made}
use sosreport_operator.GoMap.Sets.{holds}
use sosreport_operator.Api.{Sosreport}
use sosreport_operator.Env.{Env}
use sosreport_operator.Controller.State.{State}
use sosreport_operator.Controller.Update.{update_status}

pub or_made-made : {V : Type 0} (m : GoMap V) → (l : List (String × V)) × (or_made m ≡ made l)
or_made-made nil_map = ([], refl)
or_made-made (made l) = (l, refl)

-- From `st` to `st'` the Sosreport was started with these nodes: they are its list of jobs to run, every
-- other list is as it was, it is on the runList, and the status that was sent says that it is in
-- progress.
pub record Begun {e : Env} (uid : String) (nodes : List String) (st st' : State e) : Type 0 where
  pub to_run :
      (v k : String)
      → holds st'.r.job_to_run_list v k
        ≡ (if uid == v then contains k nodes else holds st.r.job_to_run_list v k)
  pub size : len (get_map st'.r.job_to_run_list uid) ≤ length nodes
  pub has_running : (v : String) → has st'.r.job_running_list v ≡ has st.r.job_running_list v
  pub running : (v k : String) → holds st'.r.job_running_list v k ≡ holds st.r.job_running_list v k
  pub listed : (v : String) → has st'.r.run_list v ≡ (uid == v || has st.r.run_list v)
  pub sent : Sosreport
  pub sent_at : e.World
  pub answered : st'.s ≡ (e.update_status sent sent_at).0.1
  pub in_progress : sent.status.in_progress ≡ true
