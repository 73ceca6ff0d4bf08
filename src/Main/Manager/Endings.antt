-- ===== src/Main/Manager/Endings.antt =====
-- How main of main.go ends.
use sosreport_operator.Prelude.{String, ◌≡◌, Bool, Option, none, some, [], ◌∷◌, pos}
use sosreport_operator.GoMap.{nil_map}
use sosreport_operator.Env.{Error, Result, ok}
use sosreport_operator.Controller.State.{SosreportReconciler, info_level}
use sosreport_operator.Main.Manager.{client_go, api_group, Options, Host, Parsed, flags}

-- a reconciler whose fields have their zero values, but for a log level that prints info messages
abbrev pub blank_reconciler : SosreportReconciler
blank_reconciler = record {
  dynamic_log_level = some (record { min_level = info_level });
  run_list = nil_map;
  job_to_run_list = nil_map;
  job_running_list = nil_map;
  image_name = "";
  sosreport_command = "";
  sosreport_concurrency = pos 0;
  pvc_storage_class = "";
  pvc_capacity = "";
  image_pull_policy = "";
}

-- the options for these flags: both schemes, this address and this election setting, port 9443
abbrev pub options_for : String → Bool → Options
options_for metrics leader = record {
  scheme =
      client_go
      ∷ api_group "support.openshift.io" "v1alpha1" ("Sosreport" ∷ "SosreportList" ∷ [])
      ∷ [];
  metrics_bind_address = metrics;
  port = 9443;
  leader_election = leader;
  leader_election_id = "25222e09.openshift.io";
}

module _ (h : Host) where
  -- The controller has been set up for Sosreports and the Jobs that they own, with a blank reconciler,
  -- and the manager has run until it was told to stop.
  abbrev pub Served : h.Manager → Option Error × h.World → Type 0
  Served mgr x = (w : h.World) × (x ≡ (none, w)) × ((h.start mgr w).0 ≡ none)

  abbrev pub set_up : h.Manager → h.World → Option Error × h.World
  set_up mgr w =
      h.complete mgr (record { for_kind = "Sosreport"; owns = "Job" ∷ [] }) blank_reconciler
        (h.event_recorder_for mgr "Sosreport" w)

  abbrev pub Managed : Result h.Manager × h.World → Type 0
  Managed x = (mgr : h.Manager) × (w : h.World) × (x ≡ (ok mgr, w)) × Served mgr (set_up mgr w)

  abbrev pub Configured : String × Bool → Option h.Config × h.World → Type 0
  Configured given x =
      (config : h.Config) × (w : h.World) × (x ≡ (some config, w))
      × Managed (h.new_manager config (options_for given.0 given.1) w)

  abbrev pub Parses : Parsed × h.World → Type 0
  Parses x =
      (metrics : String) × (leader : Bool) × (w : h.World) × (x ≡ (flags metrics leader, w))
      × Configured (metrics, leader) (h.get_config w)
