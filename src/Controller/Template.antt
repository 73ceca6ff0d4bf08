-- ===== src/Controller/Template.antt =====
-- The Job and the PersistentVolumeClaim of a node: getTemplatesDir, jobFromTemplate,
-- mapToEnvVarArr, labelsForSosreportJob and jobForSosreport of
-- controllers/sosreport_controller.go.
pub mod Names
pub mod Manifest
pub mod Total
pub mod Works
use sosreport_operator.Prelude.{
  ◌+◌, String, ◌<>◌, count, Option, none, some, List, [], ◌∷◌, ◌++◌, map, ◌==◌, ltb, ℤ, pos, negsuc,
  minus, if◌then◌else◌,
}
use sosreport_operator.GoMap.{StringMap, nil_map, made}
use sosreport_operator.Exec.{Exec, ◌>>=◌}
use sosreport_operator.Strings.{split, first_piece, prefix}
use sosreport_operator.Api.{
  OwnerReference, Sosreport, EnvVar, Container, persistent_volume_claim, Affinity, Job,
  PersistentVolumeClaim,
}
use sosreport_operator.Env.{Env, Result, ok, err, Object, job_object, other_object}
use sosreport_operator.Controller.State.{
  SosreportReconciler, State, call, get_r, get_s, return, or_crash, range,
}

abbrev pub layout : String
layout = "20060102150405"

-- `maxLen`, with the two dashes, the time and `-pvc` taken off
unfoldable pub max_len : String → ℤ
max_len name = minus (pos 63) (2 + count name + count layout + 4)

-- `shortName[:maxLen]` where the name is longer; at a negative bound the slice panics
unfoldable pub cut : String → ℤ → Option String
cut short (pos n) = some (if ltb n (count short) then prefix n short else short)
cut short (negsuc n) = none

unfoldable pub short_name : String → String → Option String
short_name name node_name = cut (first_piece (split b'.' node_name)) (max_len name)

-- `fmt.Sprintf("%s-%s-%s", ...)`
unfoldable pub job_name : String → String → String → String
job_name name short time = name <> ("-" <> (short <> ("-" <> time)))

unfoldable pub pvc_name : String → String
pvc_name job = job <> "-pvc"

unfoldable pub labels_for_sosreport_job : String → StringMap
labels_for_sosreport_job name = made (("app", "sosreport") ∷ ("sosreport-cr", name) ∷ [])

-- `&r.pvcStorageClass`, or nil where that is empty
unfoldable pub storage_class : String → Option String
storage_class c = if c == "" then none else some c

unfoldable pub affinity_for : String → Affinity
affinity_for node_name = record {
  node_selector_terms =
      ((record { key = "kubernetes.io/hostname"; operator = "In"; values = node_name ∷ [] }) ∷ [])
      ∷ [];
}

-- `Containers[0]`, changed in place; without a container the index panics
unfoldable pub with_first : (Container → Container) → List Container → Option (List Container)
with_first f [] = none
with_first f (c ∷ cs) = some (f c ∷ cs)

unfoldable pub fill_container : SosreportReconciler → String → List EnvVar → Container → Container
fill_container r name env c = record c {
  name = name;
  image = r.image_name;
  command = split b' ' r.sosreport_command;
  env = env;
  volume_mounts = c.volume_mounts ++ (record { name = pvc_name name; mount_path = "/pv" } ∷ []);
  image_pull_policy =
      if r.image_pull_policy == "" then c.image_pull_policy else r.image_pull_policy;
}

-- the error of SetControllerReference is dropped
unfoldable pub owners_or : List OwnerReference → Result (List OwnerReference) → List OwnerReference
owners_or old (err x) = old
owners_or old (ok new) = new

unfoldable pub to_env_var : String × String → EnvVar
to_env_var entry = record { name = entry.0; value = entry.1 }

module _ (e : Env) where
  -- The PersistentVolumeClaim of a job, with the capacity that was parsed.
  unfoldable pub pvc_for : SosreportReconciler → Sosreport → String → String → PersistentVolumeClaim
  pvc_for r s name capacity = record {
    metadata = record {
      name = pvc_name name;
      namespace = s.metadata.namespace;
      uid = "";
      labels = labels_for_sosreport_job s.metadata.name;
      annotations = nil_map;
      owner_references = owners_or [] (e.set_controller_reference s []);
    };
    access_modes = "ReadWriteOnce" ∷ [];
    storage_class_name = storage_class r.pvc_storage_class;
    storage = capacity;
  }

  -- The template's job with its own fields set, around its containers.
  unfoldable pub job_for : Sosreport → String → String → Job → List Container → Job
  job_for s node_name name template containers = record {
    metadata = record {
      name = name;
      namespace = s.metadata.namespace;
      uid = "";
      labels = made [];
      annotations = made (("nodeName", node_name) ∷ []);
      owner_references = owners_or [] (e.set_controller_reference s []);
    };
    template_metadata = record {
      name = "";
      namespace = "";
      uid = "";
      labels = labels_for_sosreport_job s.metadata.name;
      annotations = nil_map;
      owner_references = [];
    };
    pod = record (template.pod) {
      tolerations = s.spec.tolerations;
      affinity = some (affinity_for node_name);
      volumes =
          template.pod.volumes
          ++ (record { name = pvc_name name; source = persistent_volume_claim (pvc_name name) }
              ∷ []);
      containers = containers;
    };
    conditions = template.conditions;
  }

  -- the loop of getTemplatesDir over the candidates
  unfoldable pub first_dir : List String → Exec (State e) (Result String)
  first_dir [] = return (err "Cannot find a valid base directory for templates")
  first_dir (d ∷ ds) = do found ← call e (e.stat d); if found then return (ok d) else first_dir ds

  -- getTemplatesDir
  unfoldable pub get_templates_dir : Exec (State e) (Result String)
  get_templates_dir = first_dir ("templates" ∷ "../templates" ∷ [])

  -- `obj.(*batchv1.Job)`, which panics at another type
  unfoldable pub as_job : Result Object → Exec (State e) (Result Job)
  as_job (err x) = return (err x)
  as_job (ok (job_object j)) = return (ok j)
  as_job (ok other_object) = or_crash none

  unfoldable pub decode_json : Result String → Exec (State e) (Result Job)
  decode_json (err x) = return (err x)
  decode_json (ok json) = as_job (e.decode json)

  -- what jobFromTemplate makes of the file's text
  unfoldable pub decode_template : Result String → Exec (State e) (Result Job)
  decode_template (err x) = return (err x)
  decode_template (ok yaml) = decode_json (e.yaml_to_json yaml)

  unfoldable pub read_template : String → Result String → Exec (State e) (Result Job)
  read_template name (err x) = return (err x)
  read_template name (ok dir) = do
    yaml ← call e (e.read_file (dir <> ("/" <> name)))
    decode_template yaml

  -- jobFromTemplate
  unfoldable pub job_from_template : String → Exec (State e) (Result Job)
  job_from_template name = do dir ← get_templates_dir; read_template name dir

  -- mapToEnvVarArr
  unfoldable pub map_to_env_var_arr : StringMap → Exec (State e) (List EnvVar)
  map_to_env_var_arr m = do l ← range m; return (map to_env_var l)

  -- the rest of jobForSosreport, after the template was read
  unfoldable pub finish_job :
      String
      → StringMap
      → String
      → PersistentVolumeClaim
      → Result Job
      → Exec (State e) (Result (Job × PersistentVolumeClaim))
  finish_job node_name environment name pvc (err x) = return (err x)
  finish_job node_name environment name pvc (ok template) = do
    r ← get_r
    s ← get_s
    env ← map_to_env_var_arr environment
    containers ← or_crash (with_first (fill_container r name env) template.pod.containers)
    return (ok (job_for s node_name name template containers, pvc))

  -- jobForSosreport
  unfoldable pub job_for_sosreport :
      String → StringMap → Exec (State e) (Result (Job × PersistentVolumeClaim))
  job_for_sosreport node_name environment = do
    s ← get_s
    short ← or_crash (short_name s.metadata.name node_name)
    time ← call e e.now
    let name = job_name s.metadata.name short time
    r ← get_r
    capacity ← or_crash (e.parse_quantity r.pvc_capacity)
    template ← job_from_template "sosreport.yaml"
    finish_job node_name environment name (pvc_for r s name capacity) template
