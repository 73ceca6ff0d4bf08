-- ===== src/Main/Manager.antt =====
-- main and init of main.go, SetupWithManager of controllers/sosreport_controller.go, and the API group
-- of api/v1alpha1/groupversion_info.go with the types that api/v1alpha1/sosreport_types.go registers.
-- The flags, the manager and the schemes are other packages'.
pub mod Endings
use sosreport_operator.Prelude.{
  ℕ, String, Bool, true, false, Option, none, some, List, [], ◌∷◌, pos,
}
use sosreport_operator.GoMap.{nil_map}
use sosreport_operator.Env.{Error, Result, ok, err}
use sosreport_operator.Controller.State.{SosreportReconciler, SosreportLogLevel, info_level}

-- an API group whose types a scheme knows: name, version and types
pub data Group : Type 0 where
  client_go : Group
  api_group : String → String → List String → Group

-- the types that the init of sosreport_types.go registers with `SchemeBuilder`
abbrev pub registered : List String
registered = "Sosreport" ∷ "SosreportList" ∷ []

-- `GroupVersion`, with those types
abbrev pub group_version : Group
group_version = api_group "support.openshift.io" "v1alpha1" registered

-- `ctrl.Options`, the fields that main sets
pub record Options : Type 0 where
  pub scheme : List Group
  pub metrics_bind_address : String
  pub port : ℕ
  pub leader_election : Bool
  pub leader_election_id : String

-- the kinds that a controller is called for: the one that it is for, and those that it owns
pub record Watches : Type 0 where
  pub for_kind : String
  pub owns : List String

-- the values of the two flags, or the code with which the parser ends the program
pub data Parsed : Type 0 where
  flags : String → Bool → Parsed
  stopped : ℕ → Parsed

-- the calls of main
pub record Host : Type 1 where
  pub World : Type 0
  pub Config : Type 0
  pub Manager : Type 0
  -- `AddToScheme` of a group
  pub add_to_scheme : Group → World → Option Error × World
  -- `flag.Parse`, with the defaults of the two flags
  pub parse_flags : String → Bool → World → Parsed × World
  -- `ctrl.GetConfigOrDie`, which ends the program where there is none
  pub get_config : World → Option Config × World
  -- `ctrl.NewManager`
  pub new_manager : Config → Options → World → Result Manager × World
  -- `mgr.GetEventRecorderFor`
  pub event_recorder_for : Manager → String → World → World
  -- `Complete` of a controller with these watches
  pub complete : Manager → Watches → SosreportReconciler → World → Option Error × World
  -- `mgr.Start`, which blocks until the program is told to stop
  pub start : Manager → World → Option Error × World

-- how the program ends: main returns, a call or main exits with a code, or a `Must` panics
pub data Ending : Type 0 where
  returned : Ending
  exited : ℕ → Ending
  panicked : Ending

-- the SosreportReconciler that main makes: what it does not name is the zero value
unfoldable pub new_reconciler : SosreportReconciler
new_reconciler = record {
  dynamic_log_level = some (record { min_level = info_level });
  run_list = nil_map;
  job_to_run_list = nil_map;
  job_running_list = nil_map;
  image_name = "";
  sosreport_command = "";
  sosreport_concurrency = pos 0;
  pvc_storage_class = "";
  pvc_capacity = "";
  image_pull_policy = "";
}

-- the options of the manager
unfoldable pub manager_options : String × Bool → Options
manager_options given = record {
  scheme = client_go ∷ group_version ∷ [];
  metrics_bind_address = given.0;
  port = 9443;
  leader_election = given.1;
  leader_election_id = "25222e09.openshift.io";
}

module _ (h : Host) where
  -- SetupWithManager
  unfoldable pub setup_with_manager :
      SosreportReconciler → h.Manager → h.World → Option Error × h.World
  setup_with_manager r mgr w =
      h.complete mgr (record { for_kind = "Sosreport"; owns = "Job" ∷ [] }) r
        (h.event_recorder_for mgr "Sosreport" w)

  -- the end of main, after the manager has run
  unfoldable pub after_start : Option Error × h.World → Ending × h.World
  after_start (some x, w) = (exited 1, w)
  after_start (none, w) = (returned, w)

  unfoldable pub after_setup : h.Manager → Option Error × h.World → Ending × h.World
  after_setup mgr (some x, w) = (exited 1, w)
  after_setup mgr (none, w) = after_start (h.start mgr w)

  unfoldable pub with_manager : Result h.Manager × h.World → Ending × h.World
  with_manager (err x, w) = (exited 1, w)
  with_manager (ok mgr, w) = after_setup mgr (setup_with_manager new_reconciler mgr w)

  unfoldable pub with_config : String × Bool → Option h.Config × h.World → Ending × h.World
  with_config given (none, w) = (exited 1, w)
  with_config given (some config, w) = with_manager (h.new_manager config (manager_options given) w)

  unfoldable pub with_flags : Parsed × h.World → Ending × h.World
  with_flags (stopped code, w) = (exited code, w)
  with_flags (flags metrics leader, w) = with_config (metrics, leader) (h.get_config w)

  -- main
  unfoldable pub main : h.World → Ending × h.World
  main w = with_flags (h.parse_flags ":8080" false w)

  -- `utilruntime.Must` around the registration of a group
  unfoldable pub must : Option Error × h.World → (h.World → Ending × h.World) → Ending × h.World
  must (some x, w) rest = (panicked, w)
  must (none, w) rest = rest w

  -- init, and main after it
  unfoldable pub start_program : h.World → Ending × h.World
  start_program w =
      must (h.add_to_scheme client_go w) λ w₁. must (h.add_to_scheme group_version w₁) main
