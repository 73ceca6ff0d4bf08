-- ===== src/Tests.antt =====
-- A small cluster on which the development's definitions run, and runs of Reconcile of
-- controllers/sosreport_controller.go on it.
mod States
mod Calls
mod Runs
mod Parts
mod Lives
mod Ends
mod Stored
mod Begins
mod Restarts
mod Copies
mod Memories
use mathlib.Core.List.{Perm}
use mathlib.Core.List.Perm
use sosreport_operator.Prelude.{
  String, ◌≡◌, refl, Bool, true, false, not, Option, none, some, List, [], ◌∷◌, ◌==◌, ℤ, pos,
  negsuc, if◌then◌else◌, count, ◌<◌, arith, Any, All, inl, inr, ltb,
}
use sosreport_operator.GoMap.{GoMap, NodeSet, StringMap, nil_map, made}
use sosreport_operator.Exec.{done, panic, ◌>>=◌}
use sosreport_operator.Api.{
  OwnerReference, ObjectMeta, Taint, Toleration, SosreportSpec, SosreportStatus, Sosreport, Node,
  Configuration, Container, PodSpec, JobCondition, Job, NamespacedName,
}
use sosreport_operator.Env.{Env, Error, Result, ok, err, job_object, RangeIsPerm, SetsController}
use sosreport_operator.Controller.State.{SosreportReconciler, State}
use sosreport_operator.Strings.{split, first_piece, prefix, trim, atoi}
use sosreport_operator.GoMap.{entries, get, assign, delete, len, keys, delete_in, assign_in}
use sosreport_operator.GoMap.Assoc.{find, put, without}
use sosreport_operator.Json.{marshal, unmarshal}
use sosreport_operator.Controller.State.{actions}
use sosreport_operator.Controller.Config.{
  setting, debug_setting, concurrency_setting, is_pull_policy, pull_policy_setting, translate_entry,
  translate, get_sosreport_config_map, get_sosreport_secret, set_global_configuration,
  set_development_configuration, translate_data, translate_development, get_env_configuration,
}
use sosreport_operator.Controller.Select.{
  object_get_controller, is_job_done, is_owned_by, owned_jobs, tolerates_taint_loop, tolerates,
  or_owned, listed_jobs, get_sosreport_jobs,
}
use sosreport_operator.Controller.Update.{refresh_sosreport, update, update_status}
use sosreport_operator.Controller.Template.{
  max_len, cut, short_name, job_name, pvc_name, labels_for_sosreport_job, storage_class,
  affinity_for, with_first, fill_container, owners_or, to_env_var, pvc_for, job_for, first_dir,
  get_templates_dir, as_job, decode_json, decode_template, read_template, job_from_template,
  map_to_env_var_arr, finish_job, job_for_sosreport,
}
use sosreport_operator.Controller.Schedule.{
  annotate, make_annotations, hostname, node_names, schedule_on, schedule_sosreport_jobs,
}
use sosreport_operator.Controller.Track.{
  init_maps, load_annotation, finish_node, node_of, annotated_names, is_done, load_job_to_run_list,
  load_job_running_list, synchronize_job_running_cache, retire_job, dequeue_job, dequeue_loop,
  annotate_running, dequeue_all, dequeue_sosreport_jobs_done, synchronize_running_status,
  is_sosreport_jobs_done,
}
use sosreport_operator.Controller.Run.{
  max_new_sosreports, make_running, move_nodes, refresh_annotation, job_created, pvc_created,
  create_both, start_job, start_loop, move_started, annotate_lists, run_with, run_sosreport_jobs,
}
use sosreport_operator.Controller.Reconcile.{
  set_in_progress, set_finished, after_schedule, start, settle, conclude, progress, dispatch,
  configure, reconcile_found, reconcile,
}

-- for the runs below
unfoldable pub program : Unit {0}
unfolding split first_piece prefix trim atoi entries get assign delete len keys delete_in assign_in
    find put without marshal unmarshal actions setting debug_setting concurrency_setting
    is_pull_policy pull_policy_setting translate_entry translate get_sosreport_config_map
    get_sosreport_secret set_global_configuration set_development_configuration translate_data
    translate_development get_env_configuration object_get_controller is_job_done is_owned_by
    owned_jobs tolerates_taint_loop tolerates or_owned listed_jobs get_sosreport_jobs
    refresh_sosreport update update_status max_len cut short_name job_name pvc_name
    labels_for_sosreport_job storage_class affinity_for with_first fill_container owners_or
    to_env_var pvc_for job_for first_dir get_templates_dir as_job decode_json decode_template
    read_template job_from_template map_to_env_var_arr finish_job job_for_sosreport annotate
    make_annotations hostname node_names schedule_on schedule_sosreport_jobs init_maps
    load_annotation finish_node node_of annotated_names is_done load_job_to_run_list
    load_job_running_list synchronize_job_running_cache retire_job dequeue_job dequeue_loop
    annotate_running dequeue_all dequeue_sosreport_jobs_done synchronize_running_status
    is_sosreport_jobs_done max_new_sosreports make_running move_nodes refresh_annotation job_created
    pvc_created create_both start_job start_loop move_started annotate_lists run_with
    run_sosreport_jobs set_in_progress set_finished after_schedule start settle conclude progress
    dispatch configure reconcile_found reconcile
program = tt

abbrev pub no_meta : ObjectMeta
no_meta = record {
  name = "";
  namespace = "";
  uid = "";
  labels = nil_map;
  annotations = nil_map;
  owner_references = [];
}

abbrev pub request : NamespacedName
request = record { namespace = "default"; name = "report" }

abbrev pub report : Sosreport
report = record {
  metadata = record no_meta { name = "report"; namespace = "default"; uid = "u1" };
  spec = record {
    node_selector = made [];
    tolerations =
        record { key = "master"; operator = "Exists"; value = ""; effect = "NoSchedule" } ∷ [];
  };
  status = record {
    finished = false;
    in_progress = false;
    currently_running_nodes = [];
    outstanding_nodes = [];
  };
}

abbrev pub node : String → List Taint → Node
node name taints = record {
  metadata = record no_meta { name = name; labels = made (("kubernetes.io/hostname", name) ∷ []) };
  taints = taints;
}

abbrev pub taint : String → Taint
taint k = record { key = k; value = ""; effect = "NoSchedule" }

-- `node-c` has a taint that the Sosreport does not tolerate
abbrev pub nodes : List Node
nodes =
    node "node-a" (taint "master" ∷ []) ∷ node "node-b" [] ∷ node "node-c" (taint "gpu" ∷ []) ∷ []

abbrev pub owner : OwnerReference
owner = record { kind = "Sosreport"; uid = "u1"; controller = some true }

abbrev pub template : Job
template = record {
  metadata = no_meta;
  template_metadata = no_meta;
  pod = record {
    host_ipc = true;
    host_network = true;
    host_pid = true;
    restart_policy = "Never";
    tolerations = [];
    affinity = none;
    containers =
        record {
          name = "";
          image = "";
          command = [];
          env = [];
          volume_mounts = [];
          image_pull_policy = "";
          privileged = true;
        }
        ∷ [];
    volumes = [];
  };
  conditions = [];
}

abbrev pub finished_job : String → Job
finished_job name = record template {
  metadata = record no_meta {
    annotations = made (("nodeName", name) ∷ []);
    owner_references = owner ∷ [];
  };
  conditions = record { type_ = "Complete"; status = "True" } ∷ [];
}

abbrev config_map : String → Result Configuration
config_map name =
    if name == "sosreport-global-configuration"
    then ok (record { entries = made (("concurrency", "1") ∷ []) })
    else if name == "sosreport-upload-configuration"
    then ok (record { entries = made (("case-number", "42") ∷ ("PASSWORD", "no") ∷ []) })
    else err "not found"

-- A cluster that answers every read alike; its world is the list of the jobs and events so far.
-- `done_jobs` are the jobs that it lists, `reachable` says whether it lists its nodes.
abbrev pub cluster : Sosreport → List Job → Bool → Env
cluster current done_jobs reachable = record {
  World = List String;
  get_sosreport = λ name w. (ok current, w);
  get_config_map = λ name w. (config_map name.name, w);
  get_secret = λ name w. (ok (record { entries = made (("password", "pw\n") ∷ []) }), w);
  list_nodes = λ selector w. ((if reachable then ok nodes else err "unreachable"), w);
  list_jobs = λ namespace w. (ok done_jobs, w);
  update = λ s w. ((none, s), w);
  update_status = λ s w. ((none, s), w);
  create_pvc = λ pvc w. (none, w);
  create_job = λ job w. (none, job.metadata.name ∷ w);
  event = λ s reason message w. message ∷ w;
  now = λ w. ("20201126120000", w);
  range_order = λ A l w. (l, w);
  stat = λ dir w. (true, w);
  read_file = λ file w. (ok "kind: Job", w);
  yaml_to_json = λ yaml. ok yaml;
  decode = λ json. ok (job_object template);
  parse_quantity = λ q. if q == "10Gi" then some q else none;
  tolerates_taint = λ t x. t.key == x.key;
  set_controller_reference =
      λ s os. ok (record { kind = "Sosreport"; uid = s.metadata.uid; controller = some true } ∷ os);
}

abbrev pub cluster_range : (s : Sosreport) (js : List Job) (b : Bool) → RangeIsPerm (cluster s js b)
cluster_range s js b = record { perm = λ A l w. Perm.refl l }

abbrev pub cluster_sets :
    (s : Sosreport) (js : List Job) (b : Bool) → SetsController (cluster s js b)
cluster_sets s js b = record { sets = λ s'. refl }

abbrev pub fresh : SosreportReconciler
fresh = record {
  dynamic_log_level = none;
  run_list = nil_map;
  job_to_run_list = nil_map;
  job_running_list = nil_map;
  image_name = "";
  sosreport_command = "";
  sosreport_concurrency = pos 0;
  pvc_storage_class = "";
  pvc_capacity = "";
  image_pull_policy = "";
}

abbrev pub ready : Env
ready = cluster report [] true

abbrev pub initial : State ready
initial = record { r = fresh; s = report; w = [] }

-- the first call of Reconcile
abbrev pub scheduled : State ready
scheduled = (reconcile ready request initial).1

-- The reconciler that these runs leave, in a cluster that lists other jobs.
abbrev pub next_state : (js : List Job) → SosreportReconciler → State (cluster report js true)
next_state js r = record { r = r; s = report; w = [] }

-- the second call starts one job, the third the other one once the first is done
abbrev pub first_running : State ready
first_running = (reconcile ready request scheduled).1

abbrev pub both_done : List Job
both_done = finished_job "node-a" ∷ finished_job "node-b" ∷ []
