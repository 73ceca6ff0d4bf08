-- ===== src/Controller/Config.antt =====
-- The configuration that controllers/sosreport_controller.go reads from ConfigMaps and the Secret:
-- setGlobalSosreportReconcilerConfiguration, setDevelopmentSosreportReconcilerConfiguration,
-- getEnvConfigurationFromConfigMapAndSecret, getSosreportConfigMap, getSosreportSecret.
-- Log messages are left out.
pub mod Environment
pub mod Settings
use sosreport_operator.Prelude.{
  String, Bool, false, ◌||◌, Option, none, some, List, [], ◌∷◌, ◌==◌, ℤ, if◌then◌else◌,
}
use sosreport_operator.GoMap.{StringMap, made, get, assign}
use sosreport_operator.Exec.{Exec, ◌>>=◌}
use sosreport_operator.Strings.{atoi, trim}
use sosreport_operator.Api.{Configuration, NamespacedName}
use sosreport_operator.Env.{Env, Result, ok, err}
use sosreport_operator.Controller.State.{
  State, call, get_r, set_r, return, or_crash, range, debug_level, info_level,
  global_config_map_name, development_config_map_name, upload_config_map_name, upload_secret_name,
  default_image_name, default_sosreport_command, default_sosreport_concurrency, default_pvc_size,
  default_image_pull_policy, is_developer_mode,
}

-- `v, ok := cm.Data[k]` where the map was found, with a default for a missing map or key
unfoldable pub setting : Result Configuration → String → String → String
setting (err _) k default = default
setting (ok cm) k default = elim (get cm.entries k) [ none ↦ default | some v ↦ v ]

-- the `debug` key of the development map, read as a Boolean
unfoldable pub debug_setting : Result Configuration → Bool
debug_setting (err _) = false
debug_setting (ok cm) = elim (get cm.entries "debug") [ none ↦ false | some v ↦ v == "true" ]

concurrency_value : Option ℤ → ℤ
concurrency_value none = default_sosreport_concurrency
concurrency_value (some n) = n

-- A value that is no number leaves the default.
unfoldable pub concurrency_setting : Result Configuration → ℤ
unfolding concurrency_value
concurrency_setting (err _) = default_sosreport_concurrency
concurrency_setting (ok cm) = elim (get cm.entries "concurrency") [
  | none ↦ default_sosreport_concurrency
  | some v ↦ concurrency_value (atoi v)
]

unfoldable pub is_pull_policy : String → Bool
is_pull_policy p = p == "Always" || p == "Never" || p == "IfNotPresent"

unfoldable pub pull_policy_setting : Result Configuration → String
pull_policy_setting (err _) = default_image_pull_policy
pull_policy_setting (ok cm) = elim (get cm.entries "image-pull-policy") [
  | none ↦ default_image_pull_policy
  | some v ↦ if is_pull_policy v then v else default_image_pull_policy
]

-- `keyMapUploadCm`, `keyMapDevelopmentCm` and `keyMapSecret`
abbrev pub key_map_upload : StringMap
key_map_upload = made (
    ("upload-method", "UPLOAD_METHOD")
    ∷ ("case-number", "CASE_NUMBER")
    ∷ ("obfuscate", "OBFUSCATE")
    ∷ ("nfs-share", "NFS_SHARE")
    ∷ ("nfs-options", "NFS_OPTIONS")
    ∷ ("ftp-server", "FTP_SERVER")
    ∷ [])

abbrev pub key_map_development : StringMap
key_map_development = made (("simulation-mode", "SIMULATION_MODE") ∷ ("debug", "DEBUG") ∷ [])

abbrev pub key_map_secret : StringMap
key_map_secret = made (("username", "USERNAME") ∷ ("password", "PASSWORD") ∷ [])

-- One round of the loops over `cm.Data`: a known key is set in the configuration under the name
-- that the job's environment has for it.
unfoldable pub translate_entry :
    StringMap → (String → String) → String → String → StringMap → Option StringMap
translate_entry key_map f k v m = elim (get key_map k) [ none ↦ some m | some j ↦ assign m j (f v) ]

and_then : Option StringMap → (StringMap → Option StringMap) → Option StringMap
and_then none f = none
and_then (some m) f = f m

-- `none` is the panic of an assignment to a nil map.
unfoldable pub translate :
    StringMap → (String → String) → List (String × String) → StringMap → Option StringMap
unfolding and_then
translate key_map f [] m = some m
translate key_map f ((k, v) ∷ l) m =
    and_then (translate_entry key_map f k v m) (translate key_map f l)

abbrev pub same_text : String → String
same_text v = v

-- `strings.Trim(v, "\n")`
abbrev pub trim_newlines : String → String
trim_newlines = trim 10

module _ (e : Env) where
  -- getSosreportConfigMap
  unfoldable pub get_sosreport_config_map :
      String → NamespacedName → Exec (State e) (Result Configuration)
  get_sosreport_config_map name req =
      call e (e.get_config_map (record { namespace = req.namespace; name = name }))

  -- getSosreportSecret
  unfoldable pub get_sosreport_secret : NamespacedName → Exec (State e) (Result Configuration)
  get_sosreport_secret req =
      call e (e.get_secret (record { namespace = req.namespace; name = upload_secret_name }))

  -- setGlobalSosreportReconcilerConfiguration
  unfoldable pub set_global_configuration : NamespacedName → Exec (State e) (Unit {0})
  set_global_configuration req = do
    dev ← get_sosreport_config_map development_config_map_name req
    cm ← get_sosreport_config_map global_config_map_name req
    r ← get_r
    set_r (record r {
      dynamic_log_level =
          some (record { min_level = if debug_setting dev then debug_level else info_level });
      sosreport_concurrency = concurrency_setting cm;
      pvc_storage_class = setting cm "pvc-storage-class" "";
      pvc_capacity = setting cm "pvc-capacity" default_pvc_size;
    })

  -- setDevelopmentSosreportReconcilerConfiguration
  unfoldable pub set_development_configuration : NamespacedName → Exec (State e) (Unit {0})
  set_development_configuration req = do
    cm ← get_sosreport_config_map development_config_map_name req
    r ← get_r
    set_r (record r {
      image_name = setting cm "sosreport-image" default_image_name;
      sosreport_command = setting cm "sosreport-command" default_sosreport_command;
      image_pull_policy = pull_policy_setting cm;
    })

  -- a loop over the data of a map that was found
  unfoldable pub translate_data :
      StringMap → (String → String) → Result Configuration → StringMap → Exec (State e) StringMap
  translate_data key_map f (err _) m = return m
  translate_data key_map f (ok cm) m = do l ← range cm.entries; or_crash (translate key_map f l m)

  -- the block under IS_DEVELOPER_MODE
  unfoldable pub translate_development : NamespacedName → StringMap → Exec (State e) StringMap
  translate_development req m =
      if is_developer_mode
      then (do
        cmu ← get_sosreport_config_map development_config_map_name req
        translate_data key_map_development same_text cmu m)
      else return m

  -- getEnvConfigurationFromConfigMapAndSecret
  unfoldable pub get_env_configuration : NamespacedName → Exec (State e) StringMap
  get_env_configuration req = do
    cmg ← get_sosreport_config_map upload_config_map_name req
    m ← translate_data key_map_upload same_text cmg (made [])
    m ← translate_development req m
    secret ← get_sosreport_secret req
    translate_data key_map_secret trim_newlines secret m
