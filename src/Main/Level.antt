-- ===== src/Main/Level.antt =====
-- Which log messages main.go prints after controllers/sosreport_controller.go has read its
-- configuration.
use sosreport_operator.Prelude.{◌≡◌, ◌↔◌, refl, true, some, arith, Bool-cases, inl, inr}
use sosreport_operator.Api.{NamespacedName}
use sosreport_operator.Env.{Env}
use sosreport_operator.Controller.State.{
  SosreportLogLevel, State, actions, development_config_map_name, debug_level, info_level,
}
use sosreport_operator.Controller.Config.{
  debug_setting, get_sosreport_config_map, set_global_configuration, set_development_configuration,
}
use sosreport_operator.Controller.Config.Settings.{value_of, debug_level_iff}
use sosreport_operator.Controller.Track.{init_maps}
use sosreport_operator.Controller.Reconcile.{configure}
use sosreport_operator.Main.{enabled}

module _ (e : Env) where
  -- Once Reconcile has read its configuration, the level that main reads is set: messages at the
  -- info level are printed, and those at the debug level exactly if the `debug` key of the
  -- development ConfigMap that was read first is the text `true`.
  pub configured_level :
      (req : NamespacedName) (st : State e)
      → (l : SosreportLogLevel) × ((configure e req st).1.r.dynamic_log_level ≡ some l)
        × (enabled l info_level ≡ true)
        × ((enabled l debug_level ≡ true) ↔ (
            value_of
              (e.get_config_map
                (record { namespace = req.namespace; name = development_config_map_name })
                st.w).0
              "debug"
            ≡ some "true"))
  unfolding configure init_maps set_global_configuration set_development_configuration
      get_sosreport_config_map actions enabled
  configured_level req st =
      let dev =
        (e.get_config_map (record { namespace = req.namespace; name = development_config_map_name })
          st.w).0 in
      let given = debug_level_iff dev in
      elim (Bool-cases (debug_setting dev)) [
        | inl a ↦ (_, refl, rw a refl, rw a ((λ h. given.0 (rw a refl)), (λ h. refl)))
        | inr a ↦ (
          _,
          refl,
          rw a refl,
          rw a ((λ h. absurd (ground arith)), (λ h. absurd (ground (arith, given.1 h, a)))),
        )
      ]
