-- ===== src/Controller/Reconcile/Configure.antt =====
-- How Reconcile of controllers/sosreport_controller.go configures the reconciler before it works.
use sosreport_operator.Prelude.{String, ◌≡◌, refl}
use sosreport_operator.GoMap.{or_made}
use sosreport_operator.Exec.{done}
use sosreport_operator.Api.{Configuration, NamespacedName}
use sosreport_operator.Env.{Env, Result}
use sosreport_operator.Controller.State.{
  State, actions, global_config_map_name, development_config_map_name,
}
use sosreport_operator.Controller.Config.{
  get_sosreport_config_map, set_global_configuration, set_development_configuration,
}
use sosreport_operator.Controller.Config.Settings.{
  Configured, debug_level_iff, concurrency_lem, setting_lem, pull_policy_setting-IsPolicy,
  pull_policy_lem,
}
use sosreport_operator.Controller.Track.{init_maps}
use sosreport_operator.Controller.Reconcile.{configure}

module _ (e : Env) where
  -- a ConfigMap of the namespace, and the world after the read
  abbrev pub config_map : String → NamespacedName → e.World → Result Configuration × e.World
  config_map name req w = e.get_config_map (record { namespace = req.namespace; name = name }) w

  -- The configuration always returns, leaves the Sosreport object alone, makes those of the three
  -- lists that are nil and keeps the others, and sets the remaining fields from the ConfigMaps that it
  -- reads: the debug level exactly for the text `true`, a concurrency that is a number, and 1 where
  -- none is given; a pull policy only if Kubernetes knows it; and for the other settings the value
  -- given, or the default.
  pub configure_lem :
      (req : NamespacedName) (st : State e)
      → ((configure e req st).0 ≡ done tt)
        × ((configure e req st).1.s ≡ st.s)
        × ((configure e req st).1.r.run_list ≡ or_made st.r.run_list)
        × ((configure e req st).1.r.job_to_run_list ≡ or_made st.r.job_to_run_list)
        × ((configure e req st).1.r.job_running_list ≡ or_made st.r.job_running_list)
        × (let dev = config_map development_config_map_name req st.w in
            let global = config_map global_config_map_name req dev.1 in
            let dev' = config_map development_config_map_name req global.1 in
            Configured dev.0 global.0 dev'.0 (configure e req st).1.r)
  unfolding configure init_maps set_global_configuration set_development_configuration
      get_sosreport_config_map actions
  configure_lem req st =
      let dev = config_map development_config_map_name req st.w in
      let global = config_map global_config_map_name req dev.1 in
      let dev' = config_map development_config_map_name req global.1 in
      (
        refl,
        refl,
        refl,
        refl,
        refl,
        record {
          debug = debug_level_iff dev.0;
          concurrency = concurrency_lem global.0;
          storage = (
            setting_lem global.0 "pvc-storage-class" "",
            setting_lem global.0 "pvc-capacity" "10Gi",
          );
          program =
              (setting_lem dev'.0 "sosreport-image" _, setting_lem dev'.0 "sosreport-command" _);
          policy = pull_policy_setting-IsPolicy dev'.0;
          policy_given = pull_policy_lem dev'.0;
        },
      )
