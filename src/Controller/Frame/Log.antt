-- ===== src/Controller/Frame/Log.antt =====
-- A cluster with a log of the jobs that the server has created, and which methods of
-- controllers/sosreport_controller.go leave that log alone.
use sosreport_operator.Prelude.{String, ◌≡◌, ◌∙◌, refl, Option, none, some, List, [], ◌∷◌, ◌++◌}
use sosreport_operator.GoMap.{GoMap, StringMap}
use sosreport_operator.Exec.Rules.{Keeps, Keeps-bind, Keeps-if}
use sosreport_operator.Api.{Configuration, Sosreport, Job, PersistentVolumeClaim, NamespacedName}
use sosreport_operator.Env.{
  Env, Error, Result, ok, err, Object, job_object, other_object, RangeIsPerm, SetsController,
}
use sosreport_operator.Controller.State.{
  SosreportReconciler, State, call, get_r, get_s, set_r, set_s, return, or_crash, range,
}
use sosreport_operator.Controller.Config.{
  get_sosreport_config_map, get_sosreport_secret, translate_data, translate_development,
  get_env_configuration,
}
use sosreport_operator.Controller.Template.{
  first_dir, get_templates_dir, as_job, decode_json, decode_template, read_template,
  job_from_template, map_to_env_var_arr, finish_job, job_for_sosreport,
}
use sosreport_operator.Controller.Run.{move_started, annotate_lists}
use sosreport_operator.Controller.Update.{refresh_sosreport, update}

abbrev aside : {W A : Type 0} → (W → A × W) → W × List Job → A × (W × List Job)
aside f w = ((f w.0).0, ((f w.0).1, w.1))

-- The Job is noted if the server has created it.
abbrev note : Option Error → Job → List Job → List Job
note none j l = l ++ (j ∷ [])
note (some x) j l = l

-- the same cluster with the log
abbrev pub logged : Env → Env
logged e = record {
  World = e.World × List Job;
  get_sosreport = λ name. aside (e.get_sosreport name);
  get_config_map = λ name. aside (e.get_config_map name);
  get_secret = λ name. aside (e.get_secret name);
  list_nodes = λ selector. aside (e.list_nodes selector);
  list_jobs = λ namespace. aside (e.list_jobs namespace);
  update = λ s. aside (e.update s);
  update_status = λ s. aside (e.update_status s);
  create_pvc = λ pvc. aside (e.create_pvc pvc);
  create_job = λ j w. let x = e.create_job j w.0 in (x.0, (x.1, note x.0 j w.1));
  event = λ s reason message w. (e.event s reason message w.0, w.1);
  now = aside e.now;
  range_order = λ A l. aside (e.range_order A l);
  stat = λ dir. aside (e.stat dir);
  read_file = λ file. aside (e.read_file file);
  yaml_to_json = e.yaml_to_json;
  decode = e.decode;
  parse_quantity = e.parse_quantity;
  tolerates_taint = e.tolerates_taint;
  set_controller_reference = e.set_controller_reference;
}

pub logged-RangeIsPerm : (e : Env) → RangeIsPerm e → RangeIsPerm (logged e)
logged-RangeIsPerm e law = record { perm = λ A l w. law.perm A l w.0 }

pub logged-SetsController : (e : Env) → SetsController e → SetsController (logged e)
logged-SetsController e law = record { sets = law.sets }

-- The log is `l`.
pub record Logs (e : Env) (l : List Job) (st : State (logged e)) : Type 0 where
  pub kept : st.w.1 ≡ l

module _ {e : Env} (l : List Job) where
  Logs-call :
      {A : Type 0} (f : e.World × List Job → A × (e.World × List Job))
      → ((w : e.World × List Job) → (f w).1.1 ≡ w.1)
      → Keeps (Logs e l) (call (logged e) f)
  unfolding call
  Logs-call f same = record { at = λ st h. record { kept = same st.w ∙ h.kept } }

  Logs-get_r : Keeps (Logs e l) get_r
  unfolding get_r
  Logs-get_r = record { at = λ st h. h }

  Logs-get_s : Keeps (Logs e l) get_s
  unfolding get_s
  Logs-get_s = record { at = λ st h. h }

  Logs-set_r : (r : SosreportReconciler) → Keeps (Logs e l) (set_r r)
  unfolding set_r
  Logs-set_r r = record { at = λ st h. record { kept = h.kept } }

  Logs-set_s : (s : Sosreport) → Keeps (Logs e l) (set_s s)
  unfolding set_s
  Logs-set_s s = record { at = λ st h. record { kept = h.kept } }

  pub Logs-return : {A : Type 0} (a : A) → Keeps (Logs e l) (return a)
  unfolding return
  Logs-return a = record { at = λ st h. h }

  Logs-or_crash : {A : Type 0} (o : Option A) → Keeps (Logs e l) (or_crash o)
  unfolding or_crash
  Logs-or_crash none = record { at = λ st h. h }
  Logs-or_crash (some a) = record { at = λ st h. h }

  pub Logs-range : {V : Type 0} (m : GoMap V) → Keeps (Logs e l) (range m)
  unfolding range
  Logs-range m = record { at = λ st h. record { kept = h.kept } }

  ruleset log_rules = (
    Logs-call, Logs-get_r, Logs-get_s, Logs-set_r, Logs-set_s, Logs-return, Logs-or_crash,
    Logs-range, Keeps-bind, Keeps-if,
  )

  Logs-config_map :
      (name : String) (req : NamespacedName)
      → Keeps (Logs e l) (get_sosreport_config_map (logged e) name req)
  unfolding get_sosreport_config_map
  Logs-config_map name req = search log_rules

  Logs-secret : (req : NamespacedName) → Keeps (Logs e l) (get_sosreport_secret (logged e) req)
  unfolding get_sosreport_secret
  Logs-secret req = search log_rules

  Logs-translate_data :
      (key_map : StringMap) (f : String → String) (cm : Result Configuration) (m : StringMap)
      → Keeps (Logs e l) (translate_data (logged e) key_map f cm m)
  unfolding translate_data
  Logs-translate_data key_map f (err x) m = search log_rules
  Logs-translate_data key_map f (ok cm) m = search log_rules

  Logs-translate_development :
      (req : NamespacedName) (m : StringMap)
      → Keeps (Logs e l) (translate_development (logged e) req m)
  unfolding translate_development
  Logs-translate_development req m = search (log_rules, Logs-config_map, Logs-translate_data)

  pub Logs-get_env_configuration :
      (req : NamespacedName) → Keeps (Logs e l) (get_env_configuration (logged e) req)
  unfolding get_env_configuration
  Logs-get_env_configuration req =
      search
        (log_rules, Logs-config_map, Logs-secret, Logs-translate_data, Logs-translate_development)
        depth 9

  Logs-first_dir : (ds : List String) → Keeps (Logs e l) (first_dir (logged e) ds)
  unfolding first_dir
  Logs-first_dir [] = search log_rules
  Logs-first_dir (d ∷ ds) =
      Keeps-bind _ _ (Logs-call ((logged e).stat d) (λ w. refl))
        λ found. Keeps-if found _ _ (Logs-return (ok d)) (Logs-first_dir ds)

  Logs-as_job : (o : Result Object) → Keeps (Logs e l) (as_job (logged e) o)
  unfolding as_job
  Logs-as_job (err x) = search log_rules
  Logs-as_job (ok (job_object j)) = search log_rules
  Logs-as_job (ok other_object) = search log_rules

  Logs-decode_json : (json : Result String) → Keeps (Logs e l) (decode_json (logged e) json)
  unfolding decode_json
  Logs-decode_json (err x) = search log_rules
  Logs-decode_json (ok json) = search (log_rules, Logs-as_job)

  Logs-decode_template : (yaml : Result String) → Keeps (Logs e l) (decode_template (logged e) yaml)
  unfolding decode_template
  Logs-decode_template (err x) = search log_rules
  Logs-decode_template (ok yaml) = search (log_rules, Logs-decode_json)

  Logs-read_template :
      (name : String) (dir : Result String) → Keeps (Logs e l) (read_template (logged e) name dir)
  unfolding read_template
  Logs-read_template name (err x) = search log_rules
  Logs-read_template name (ok dir) = search (log_rules, Logs-decode_template)

  Logs-job_from_template : (name : String) → Keeps (Logs e l) (job_from_template (logged e) name)
  unfolding job_from_template get_templates_dir
  Logs-job_from_template name = search (log_rules, Logs-first_dir, Logs-read_template)

  Logs-map_to_env_var_arr : (m : StringMap) → Keeps (Logs e l) (map_to_env_var_arr (logged e) m)
  unfolding map_to_env_var_arr
  Logs-map_to_env_var_arr m = search log_rules

  Logs-finish_job :
      (node : String) (m : StringMap) (name : String) (pvc : PersistentVolumeClaim)
      (job : Result Job)
      → Keeps (Logs e l) (finish_job (logged e) node m name pvc job)
  unfolding finish_job
  Logs-finish_job node m name pvc (err x) = search log_rules
  Logs-finish_job node m name pvc (ok job) = search (log_rules, Logs-map_to_env_var_arr) depth 9

  pub Logs-job_for_sosreport :
      (node : String) (m : StringMap) → Keeps (Logs e l) (job_for_sosreport (logged e) node m)
  unfolding job_for_sosreport
  Logs-job_for_sosreport node m =
      search (log_rules, Logs-job_from_template, Logs-finish_job) depth 16

  Logs-refresh : (req : NamespacedName) → Keeps (Logs e l) (refresh_sosreport (logged e) req)
  unfolding refresh_sosreport
  Logs-refresh req = search log_rules

  Logs-update : (req : NamespacedName) → Keeps (Logs e l) (update (logged e) req)
  unfolding update
  Logs-update req = search (log_rules, Logs-refresh) depth 9

  pub Logs-move_started :
      (uid : String) (new : List String) → Keeps (Logs e l) (move_started (logged e) uid new)
  unfolding move_started
  Logs-move_started uid new = search log_rules depth 9

  pub Logs-annotate_lists :
      (req : NamespacedName) → Keeps (Logs e l) (annotate_lists (logged e) req)
  unfolding annotate_lists
  Logs-annotate_lists req = search (log_rules, Logs-update) depth 16
