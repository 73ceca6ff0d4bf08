-- ===== src/Controller/Lifecycle/Reload.antt =====
-- What synchronizeJobRunningCache of controllers/sosreport_controller.go brings back in an operator that
-- has started again.
use sosreport_operator.Prelude.{
  String, ◌≡◌, refl, true, false, Option, none, some, List, arith, eq_refl,
}
use sosreport_operator.GoMap.{GoMap, NodeSet, made, get, get_map, has}
use sosreport_operator.GoMap.Sets.{holds}
use sosreport_operator.Json.{marshal}
use sosreport_operator.Json.RoundTrip.{unmarshal-marshal, SameNames}
use sosreport_operator.Exec.{done}
use sosreport_operator.Api.{Sosreport}
use sosreport_operator.Env.{Env}
use sosreport_operator.Controller.State.{SosreportReconciler, State}
use sosreport_operator.Controller.Track.{synchronize_job_running_cache}
use sosreport_operator.Controller.Track.Restart.{
  restored, saved, Restored, synchronize_job_running_cache-Restored,
  pvc_capacity-synchronize_job_running_cache,
}
use sosreport_operator.Controller.Run.Restart.{holds-Restored}

-- The two annotations of the Sosreport are the lists that the reconciler has for it, as JSON.
pub record Annotated (s : Sosreport) (r : SosreportReconciler) : Type 0 where
  pub to_run :
      get s.metadata.annotations "job-to-run-list"
      ≡ some (marshal (get_map r.job_to_run_list s.metadata.uid))
  pub running :
      get s.metadata.annotations "job-running-list"
      ≡ some (marshal (get_map r.job_running_list s.metadata.uid))

-- a cache without an entry is restored from its annotation
restored_of_absent :
    (m : GoMap NodeSet) (uid : String) (annotation : Option String) (names : NodeSet)
    → has m uid ≡ false
    → annotation ≡ some (marshal names)
    → (names' : NodeSet) × (restored (get m uid) annotation ≡ some (some names'))
      × SameNames names names'
restored_of_absent m uid annotation names absent h =
    let (names', read, same) = unmarshal-marshal names in
    (names', ground (arith, absent, h, read), same)

-- The lists hold for the Sosreport what they hold elsewhere.
pub record Resumed (uid : String) (old now : SosreportReconciler) : Type 0 where
  pub to_run : (k : String) → holds now.job_to_run_list uid k ≡ holds old.job_to_run_list uid k
  pub running : (k : String) → holds now.job_running_list uid k ≡ holds old.job_running_list uid k
  pub entered : has now.job_running_list uid ≡ true

entered_of :
    (uid : String) (m m' : GoMap NodeSet) (names : NodeSet)
    → Restored uid m m' (some names)
    → has m' uid ≡ true
entered_of uid m m' names r = ground (arith, r.entry uid, eq_refl uid)

module _ (e : Env) where
  -- synchronizeJobRunningCache, in an operator that has no lists of the Sosreport
  pub loads :
      (st : State e) (old : SosreportReconciler) (l l' : List (String × NodeSet))
      → st.r.job_to_run_list ≡ made l
      → st.r.job_running_list ≡ made l'
      → has st.r.job_to_run_list st.s.metadata.uid ≡ false
      → has st.r.job_running_list st.s.metadata.uid ≡ false
      → Annotated st.s old
      → let st' = (synchronize_job_running_cache e st).1 in
        ((synchronize_job_running_cache e st).0 ≡ done none)
        × (st'.s ≡ st.s)
        × (st'.r.pvc_capacity ≡ st.r.pvc_capacity)
        × Resumed st.s.metadata.uid old st'.r
  loads st old l l' is is' absent absent' kept =
      let uid = st.s.metadata.uid in
      let (m, read, same) =
        restored_of_absent (made l) uid (saved st "job-to-run-list")
          (get_map old.job_to_run_list uid) (rw is at absent) kept.to_run in
      let (m', read', same') =
        restored_of_absent (made l') uid (saved st "job-running-list")
          (get_map old.job_running_list uid) (rw is' at absent') kept.running in
      let (ran, own, world, first, second) =
        synchronize_job_running_cache-Restored e st l l' is is' read read' in
      (
        ran,
        own,
        pvc_capacity-synchronize_job_running_cache e st l l' is is' read read',
        record {
          to_run = holds-Restored uid uid old.job_to_run_list _ _ m refl first same;
          running = holds-Restored uid uid old.job_running_list _ _ m' refl second same';
          entered = entered_of uid _ _ m' second;
        },
      )
