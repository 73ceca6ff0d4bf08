-- ===== src/Controller/State.antt =====
-- The state of controllers/sosreport_controller.go: the SosreportReconciler, the Sosreport object
-- that the methods share through a pointer, and the world outside.
use sosreport_operator.Prelude.{String, Bool, true, Option, none, some, List, ℤ, pos, negsuc}
use sosreport_operator.GoMap.{GoMap, NodeSet, entries}
use sosreport_operator.Exec.{Exec, done, panic, ◌>>=◌}
use sosreport_operator.Api.{Sosreport}
use sosreport_operator.Env.{Env}

pub record SosreportLogLevel : Type 0 where
  pub min_level : ℤ

pub record SosreportReconciler : Type 0 where
  pub dynamic_log_level : Option SosreportLogLevel
  pub run_list : NodeSet
  pub job_to_run_list : GoMap NodeSet
  pub job_running_list : GoMap NodeSet
  pub image_name : String
  pub sosreport_command : String
  pub sosreport_concurrency : ℤ
  pub pvc_storage_class : String
  pub pvc_capacity : String
  pub image_pull_policy : String

-- zapcore.DebugLevel and zapcore.InfoLevel
abbrev pub debug_level : ℤ
debug_level = negsuc 0

abbrev pub info_level : ℤ
info_level = pos 0

abbrev pub global_config_map_name : String
global_config_map_name = "sosreport-global-configuration"

abbrev pub development_config_map_name : String
development_config_map_name = "sosreport-development-configuration"

abbrev pub upload_config_map_name : String
upload_config_map_name = "sosreport-upload-configuration"

abbrev pub upload_secret_name : String
upload_secret_name = "sosreport-upload-secret"

abbrev pub default_image_name : String
default_image_name = "quay.io/akaris/sosreport-centos:0.0.2"

abbrev pub default_sosreport_command : String
default_sosreport_command = "bash /scripts/entrypoint.sh"

abbrev pub default_sosreport_concurrency : ℤ
default_sosreport_concurrency = pos 1

abbrev pub default_pvc_size : String
default_pvc_size = "10Gi"

abbrev pub default_image_pull_policy : String
default_image_pull_policy = ""

pub record State (e : Env) : Type 0 where
  pub r : SosreportReconciler
  pub s : Sosreport
  pub w : e.World

-- a build constant: the overrides for development are read
abbrev pub is_developer_mode : Bool
is_developer_mode = true

-- a call into the world
unfoldable pub call : (e : Env) {A : Type 0} → (e.World → A × e.World) → Exec (State e) A
call e f st = let (a, w) = f st.w in (done a, record st { w = w })

module _ {e : Env} where
  unfoldable pub get_r : Exec (State e) SosreportReconciler
  get_r st = (done st.r, st)

  unfoldable pub get_s : Exec (State e) Sosreport
  get_s st = (done st.s, st)

  unfoldable pub set_r : SosreportReconciler → Exec (State e) (Unit {0})
  set_r r st = (done tt, record st { r = r })

  unfoldable pub set_s : Sosreport → Exec (State e) (Unit {0})
  set_s s st = (done tt, record st { s = s })

  unfoldable pub return : {A : Type 0} → A → Exec (State e) A
  return a st = (done a, st)

  -- a value that may be missing because the statement panics
  unfoldable pub or_crash : {A : Type 0} → Option A → Exec (State e) A
  or_crash none st = (panic, st)
  or_crash (some a) st = (done a, st)

  -- the entries of a map in the order in which `range` visits them this time
  unfoldable pub range : {V : Type 0} → GoMap V → Exec (State e) (List (String × V))
  range m st = let (l, w) = e.range_order _ (entries m) st.w in (done l, record st { w = w })

-- for the proofs that run these actions
unfoldable pub actions : Unit {0}
unfolding call get_r get_s set_r set_s return or_crash range ◌>>=◌
actions = tt
