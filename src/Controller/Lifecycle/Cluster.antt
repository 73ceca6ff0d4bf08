-- ===== src/Controller/Lifecycle/Cluster.antt =====
-- What a cluster does in which Reconcile of controllers/sosreport_controller.go makes progress.
use sosreport_operator.Prelude.{
  ℕ, ◌≤◌, String, ◌≡◌, true, false, count, some, List, select, All, contains, pos,
}
use sosreport_operator.GoMap.Sets.{holds}
use sosreport_operator.Strings.{atoi}
use sosreport_operator.Api.{Sosreport, Job, NamespacedName}
use sosreport_operator.Env.{Env, ok}
use sosreport_operator.Controller.State.{
  SosreportReconciler, development_config_map_name, global_config_map_name,
}
use sosreport_operator.Controller.Config.Settings.{value_of, or_default}
use sosreport_operator.Controller.Select.Ownership.{HasControllers, belongs}
use sosreport_operator.Controller.Track.Dequeue.{finished_nodes}
use sosreport_operator.Controller.Reconcile.{configure}
use sosreport_operator.Controller.Reconcile.Configure.{config_map}

-- In this world the server has the Sosreport, not finished, with a name of at most 43 characters; and,
-- when Reconcile then reads the ConfigMaps, a global one with the concurrency `c` and a capacity, given
-- or the default, that is a quantity.
pub record Cooperative (e : Env) (req : NamespacedName) (uid : String) (c : ℕ) (w : e.World)
    : Type 0 where
  pub sosreport : Sosreport
  pub after : e.World
  pub found : e.get_sosreport req w ≡ (ok sosreport, after)
  pub unfinished : sosreport.status.finished ≡ false
  pub same_uid : sosreport.metadata.uid ≡ uid
  pub short : count sosreport.metadata.name ≤ 43
  pub number : String
  pub given :
      value_of
        (config_map e global_config_map_name req
          (config_map e development_config_map_name req after).1).0
        "concurrency"
      ≡ some number
  pub reads : atoi number ≡ some (pos c)
  pub quantity : String
  pub parsed :
      e.parse_quantity (
        or_default "10Gi" (
          value_of
            (config_map e global_config_map_name req
              (config_map e development_config_map_name req after).1).0
            "pvc-capacity"))
      ≡ some quantity

-- the world in which a call of Reconcile asks for the jobs: it has read the Sosreport and has been
-- configured
abbrev pub asking : (e : Env) → NamespacedName → SosreportReconciler → Sosreport → e.World → e.World
asking e req r s w = (configure e req (record { r = r; s = s; w = w })).1.w

-- In this world the server lists jobs of which those of the Sosreport that are done name every node
-- that runs.
pub record Ended (e : Env) (req : NamespacedName) (uid : String) (r : SosreportReconciler)
    (w : e.World) : Type 0 where
  pub jobs : List Job
  pub listed : (e.list_jobs req.namespace w).0 ≡ ok jobs
  pub controllers : All HasControllers jobs
  pub ended :
      (k : String)
      → holds r.job_running_list uid k ≡ true
      → contains k (finished_nodes (select (belongs uid) jobs)) ≡ true
