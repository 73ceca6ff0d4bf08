-- ===== src/Controller/Run/Restart.antt =====
-- A restart of the operator between two calls: the lists that runSosreportJobs of
-- controllers/sosreport_controller.go leaves come back through the annotations.
use sosreport_operator.Prelude.{eq_refl, String, ◌≡◌, refl, Bool, Option, none, some, [], arith}
use sosreport_operator.GoMap.{GoMap, NodeSet, made, entries, get, get_map}
use sosreport_operator.GoMap.Assoc.{find}
use sosreport_operator.GoMap.Sets.{holds}
use sosreport_operator.Json.{marshal}
use sosreport_operator.Json.RoundTrip.{unmarshal-marshal, SameNames}
use sosreport_operator.Exec.{done}
use sosreport_operator.Api.{NamespacedName}
use sosreport_operator.Env.{Env, Error, UpdateKeepsIdentity, UpdateKeepsAnnotations}
use sosreport_operator.Controller.State.{SosreportReconciler, State}
use sosreport_operator.Controller.Track.{synchronize_job_running_cache}
use sosreport_operator.Controller.Track.Restart.{
  restored, saved, Restored, synchronize_job_running_cache-Restored,
}
use sosreport_operator.Controller.Run.{run_sosreport_jobs}
use sosreport_operator.Controller.Run.Saved.{run_sosreport_jobs-Saved}

-- what an operator has made of its maps after a start
abbrev pub forgotten : SosreportReconciler → SosreportReconciler
forgotten r = record r { run_list = made []; job_to_run_list = made []; job_running_list = made [] }

-- the operator starts again, and meets the Sosreport object in a new world
abbrev pub restarted : {e : Env} → State e → e.World → State e
restarted st w = record { r = forgotten st.r; s = st.s; w = w }

restored_of_saved :
    (uid : String) (annotation : Option String) (m : NodeSet)
    → annotation ≡ some (marshal m)
    → (m' : NodeSet) × (restored (get {V = NodeSet} (made []) uid) annotation ≡ some (some m'))
      × SameNames m m'
unfolding get find entries
restored_of_saved uid annotation m h =
    let (m', read, same) = unmarshal-marshal m in (m', ground (arith, h, read), same)

-- the lists hold the same names for the Sosreport
pub holds-Restored :
    (uid uid' : String) (m before now : GoMap NodeSet) (names : NodeSet)
    → uid' ≡ uid
    → Restored uid' before now (some names)
    → SameNames (get_map m uid) names
    → (k : String) → holds now uid k ≡ holds m uid k
holds-Restored uid uid' m before now names own r same k =
    ground (arith, r.entry uid, same k, own, eq_refl uid)

-- If runSosreportJobs returns and the operator is restarted after it and meets the Sosreport object as
-- that call left it, in any world, synchronizeJobRunningCache brings both lists of the Sosreport back:
-- whatever the names of the nodes, each list holds exactly the names that it held before the restart,
-- no error is returned and no call is made. This assumes that the answer to an update describes the
-- same object and has the annotations that were sent.
pub lists_survive_restart :
    (e : Env)
    → UpdateKeepsIdentity e
    → UpdateKeepsAnnotations e
    → (req : NamespacedName) (st : State e) (w : e.World) {x : Bool × Option Error}
    → (run_sosreport_jobs e req st).0 ≡ done x
    → let st' = (run_sosreport_jobs e req st).1 in
      let back = synchronize_job_running_cache e (restarted st' w) in
      (back.0 ≡ done none)
      × (back.1.w ≡ w)
      × ((k : String)
          → holds back.1.r.job_to_run_list st.s.metadata.uid k
            ≡ holds st'.r.job_to_run_list st.s.metadata.uid k)
      × ((k : String)
          → holds back.1.r.job_running_list st.s.metadata.uid k
            ≡ holds st'.r.job_running_list st.s.metadata.uid k)
lists_survive_restart e identity keeps req st w h =
    let uid = st.s.metadata.uid in
    let st' = (run_sosreport_jobs e req st).1 in
    let kept = run_sosreport_jobs-Saved e identity keeps req st h in
    let (m, is, same) =
      restored_of_saved st'.s.metadata.uid (saved (restarted st' w) "job-to-run-list")
        (get_map st'.r.job_to_run_list uid) kept.to_run in
    let (m', is', same') =
      restored_of_saved st'.s.metadata.uid (saved (restarted st' w) "job-running-list")
        (get_map st'.r.job_running_list uid) kept.running in
    let (ran, s, world, to_run, running) =
      synchronize_job_running_cache-Restored e (restarted st' w) [] [] refl refl is is' in
    (
      ran,
      world,
      holds-Restored uid st'.s.metadata.uid st'.r.job_to_run_list _ _ m kept.same_uid to_run same,
      holds-Restored uid st'.s.metadata.uid st'.r.job_running_list _ _ m' kept.same_uid running
          same',
    )
