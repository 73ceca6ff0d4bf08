-- ===== src/Controller/Frame.antt =====
-- Which methods of controllers/sosreport_controller.go leave the reconciler's fields and the
-- Sosreport object alone: those that only read configuration, list jobs and build or create objects.
pub mod Reconciler
pub mod Fits
pub mod Log
use sosreport_operator.Prelude.{
  String, ◌≡◌, refl, Option, none, some, List, [], ◌∷◌, ℤ, ℕ, ◌+◌, ◌++◌, at_least, if◌then◌else◌,
}
use sosreport_operator.GoMap.{GoMap, StringMap}
use sosreport_operator.Exec.{Exec, Outcome, done, panic}
use sosreport_operator.Exec.Rules.{Keeps, Keeps-bind, Keeps-if}
use sosreport_operator.Api.{Configuration, Sosreport, Job, PersistentVolumeClaim, NamespacedName}
use sosreport_operator.Env.{Env, Error, Result, ok, err, Object, job_object, other_object}
use sosreport_operator.Controller.State.{
  SosreportReconciler, State, call, get_r, get_s, set_s, return, or_crash, range,
}
use sosreport_operator.Controller.Config.{
  get_sosreport_config_map, get_sosreport_secret, translate_data, translate_development,
  get_env_configuration,
}
use sosreport_operator.Controller.Select.{or_owned, listed_jobs, get_sosreport_jobs, owned_jobs}
use sosreport_operator.Controller.Template.{
  first_dir, get_templates_dir, as_job, decode_json, decode_template, read_template,
  job_from_template, map_to_env_var_arr, finish_job, job_for_sosreport,
}
use sosreport_operator.Controller.Run.{
  job_created, pvc_created, create_both, start_job, start_loop, annotate_lists,
}
use sosreport_operator.Controller.Update.{refresh_sosreport, update, update_status}

-- The reconciler is `r` and the Sosreport object is `s`.
pub record At {e : Env} (r : SosreportReconciler) (s : Sosreport) (st : State e) : Type 0 where
  pub reconciler : st.r ≡ r
  pub sosreport : st.s ≡ s

module _ {e : Env} (r : SosreportReconciler) (s : Sosreport) where
  pub At-call : {A : Type 0} (f : e.World → A × e.World) → Keeps (At {e = e} r s) (call e f)
  unfolding call
  At-call f = record { at = λ st h. record { reconciler = h.reconciler; sosreport = h.sosreport } }

  pub At-get_r : Keeps (At {e = e} r s) get_r
  unfolding get_r
  At-get_r = record { at = λ st h. h }

  pub At-get_s : Keeps (At {e = e} r s) get_s
  unfolding get_s
  At-get_s = record { at = λ st h. h }

  pub At-return : {A : Type 0} (a : A) → Keeps (At {e = e} r s) (return a)
  unfolding return
  At-return a = record { at = λ st h. h }

  pub At-or_crash : {A : Type 0} (o : Option A) → Keeps (At {e = e} r s) (or_crash o)
  unfolding or_crash
  At-or_crash none = record { at = λ st h. h }
  At-or_crash (some a) = record { at = λ st h. h }

  pub At-range : {V : Type 0} (m : GoMap V) → Keeps (At {e = e} r s) (range m)
  unfolding range
  At-range m = record { at = λ st h. record { reconciler = h.reconciler; sosreport = h.sosreport } }

  ruleset frame_rules =
      (At-call, At-get_r, At-get_s, At-return, At-or_crash, At-range, Keeps-bind, Keeps-if)

  At-config_map :
      (name : String) (req : NamespacedName)
      → Keeps (At {e = e} r s) (get_sosreport_config_map e name req)
  unfolding get_sosreport_config_map
  At-config_map name req = search frame_rules

  At-secret : (req : NamespacedName) → Keeps (At {e = e} r s) (get_sosreport_secret e req)
  unfolding get_sosreport_secret
  At-secret req = search frame_rules

  At-translate_data :
      (key_map : StringMap) (f : String → String) (cm : Result Configuration) (m : StringMap)
      → Keeps (At {e = e} r s) (translate_data e key_map f cm m)
  unfolding translate_data
  At-translate_data key_map f (err x) m = search frame_rules
  At-translate_data key_map f (ok cm) m = search frame_rules

  At-translate_development :
      (req : NamespacedName) (m : StringMap)
      → Keeps (At {e = e} r s) (translate_development e req m)
  unfolding translate_development
  At-translate_development req m = search (frame_rules, At-config_map, At-translate_data)

  pub At-get_env_configuration :
      (req : NamespacedName) → Keeps (At {e = e} r s) (get_env_configuration e req)
  unfolding get_env_configuration
  At-get_env_configuration req =
      search (frame_rules, At-config_map, At-secret, At-translate_data, At-translate_development)
        depth 9

  pub At-first_dir : (ds : List String) → Keeps (At {e = e} r s) (first_dir e ds)
  unfolding first_dir
  At-first_dir [] = search frame_rules
  At-first_dir (d ∷ ds) =
      Keeps-bind _ _ (At-call (e.stat d))
        λ found. Keeps-if found _ _ (At-return (ok d)) (At-first_dir ds)

  At-as_job : (o : Result Object) → Keeps (At {e = e} r s) (as_job e o)
  unfolding as_job
  At-as_job (err x) = search frame_rules
  At-as_job (ok (job_object j)) = search frame_rules
  At-as_job (ok other_object) = search frame_rules

  At-decode_json : (json : Result String) → Keeps (At {e = e} r s) (decode_json e json)
  unfolding decode_json
  At-decode_json (err x) = search frame_rules
  At-decode_json (ok json) = search (frame_rules, At-as_job)

  At-decode_template : (yaml : Result String) → Keeps (At {e = e} r s) (decode_template e yaml)
  unfolding decode_template
  At-decode_template (err x) = search frame_rules
  At-decode_template (ok yaml) = search (frame_rules, At-decode_json)

  At-read_template :
      (name : String) (dir : Result String) → Keeps (At {e = e} r s) (read_template e name dir)
  unfolding read_template
  At-read_template name (err x) = search frame_rules
  At-read_template name (ok dir) = search (frame_rules, At-decode_template)

  pub At-job_from_template : (name : String) → Keeps (At {e = e} r s) (job_from_template e name)
  unfolding job_from_template get_templates_dir
  At-job_from_template name = search (frame_rules, At-first_dir, At-read_template)

  At-map_to_env_var_arr : (m : StringMap) → Keeps (At {e = e} r s) (map_to_env_var_arr e m)
  unfolding map_to_env_var_arr
  At-map_to_env_var_arr m = search frame_rules

  At-finish_job :
      (node : String) (m : StringMap) (name : String) (pvc : PersistentVolumeClaim)
      (job : Result Job)
      → Keeps (At {e = e} r s) (finish_job e node m name pvc job)
  unfolding finish_job
  At-finish_job node m name pvc (err x) = search frame_rules
  At-finish_job node m name pvc (ok job) = search (frame_rules, At-map_to_env_var_arr) depth 9

  pub At-job_for_sosreport :
      (node : String) (m : StringMap) → Keeps (At {e = e} r s) (job_for_sosreport e node m)
  unfolding job_for_sosreport
  At-job_for_sosreport node m = search (frame_rules, At-job_from_template, At-finish_job) depth 16

  At-job_created :
      (node : String) (failed : Option Error) → Keeps (At {e = e} r s) (job_created e node failed)
  unfolding job_created
  At-job_created node none = search frame_rules
  At-job_created node (some x) = search frame_rules

  At-pvc_created :
      (node : String) (job : Job) (failed : Option Error)
      → Keeps (At {e = e} r s) (pvc_created e node job failed)
  unfolding pvc_created
  At-pvc_created node job none = search (frame_rules, At-job_created)
  At-pvc_created node job (some x) = search frame_rules

  pub At-create_both :
      (node : String) (o : Result (Job × PersistentVolumeClaim))
      → Keeps (At {e = e} r s) (create_both e node o)
  unfolding create_both
  At-create_both node (err x) = search frame_rules
  At-create_both node (ok (job, pvc)) = search (frame_rules, At-pvc_created)

  pub At-start_job :
      (environment : StringMap) (node : String)
      → Keeps (At {e = e} r s) (start_job e environment node)
  unfolding start_job
  At-start_job environment node = search (frame_rules, At-job_for_sosreport, At-create_both)

  pub At-start_loop :
      (environment : StringMap) (limit : ℤ) (i : ℕ) (new nodes : List String)
      → Keeps (At {e = e} r s) (start_loop e environment limit i new nodes)
  unfolding start_loop
  At-start_loop environment limit i new [] = search frame_rules
  At-start_loop environment limit i new (n ∷ ns) = Keeps-if (at_least i limit) _ _ (At-return new) (
      Keeps-bind (start_job e environment n) _ (At-start_job environment n) λ b.
        At-start_loop environment limit (if b then i + 1 else i)
          (if b then new ++ (n ∷ []) else new) ns)

  At-listed_jobs :
      (uid : String) (js : Result (List Job)) → Keeps (At {e = e} r s) (listed_jobs e uid js)
  unfolding listed_jobs or_owned return
  At-listed_jobs uid (err x) = record { at = λ st h. h }
  At-listed_jobs uid (ok js) = At-or_owned (owned_jobs uid js)
    where
      At-or_owned : (o : Outcome (List Job)) → Keeps (At {e = e} r s) (or_owned e o)
      At-or_owned (done l) = record { at = λ st h. h }
      At-or_owned panic = record { at = λ st h. h }

  pub At-get_sosreport_jobs :
      (req : NamespacedName) → Keeps (At {e = e} r s) (get_sosreport_jobs e req)
  unfolding get_sosreport_jobs
  At-get_sosreport_jobs req = search (frame_rules, At-listed_jobs)
