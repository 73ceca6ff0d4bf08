-- ===== src/Controller/Template/Works.antt =====
-- When jobForSosreport of controllers/sosreport_controller.go gives a Job and a claim.
use sosreport_operator.Prelude.{◌≤◌, String, ◌<>◌, ◌≡◌, refl, true, count, some, ◌∷◌, map, arith}
use sosreport_operator.GoMap.{StringMap, entries}
use sosreport_operator.Exec.{◌>>=◌}
use sosreport_operator.Exec.Total.{Returns, Returns-bind}
use sosreport_operator.Api.{Sosreport, Job, PersistentVolumeClaim}
use sosreport_operator.Env.{Env, Result, ok, err, job_object}
use sosreport_operator.Controller.State.{SosreportReconciler, actions}
use sosreport_operator.Controller.Frame.{At, At-job_from_template}
use sosreport_operator.Controller.Template.{
  first_dir, get_templates_dir, as_job, decode_json, decode_template, read_template,
  job_from_template, map_to_env_var_arr, with_first, finish_job, job_name, pvc_for, job_for,
  fill_container, to_env_var, job_for_sosreport,
}
use sosreport_operator.Controller.Template.Names.{short_name_of_fit}
use sosreport_operator.Controller.Template.Total.{HasContainer, short_of}

-- The directory `templates` is there, and the file of this name in it is a Job with a container.
pub record WorkingTemplate (e : Env) (name : String) : Type 0 where
  pub found : (w : e.World) → (e.stat "templates" w).0 ≡ true
  pub file :
      (w : e.World)
      → (yaml : String) × (json : String) × (t : Job) × ((e.read_file
            ("templates" <> ("/" <> name))
            w).0
          ≡ ok yaml)
        × (e.yaml_to_json yaml ≡ ok json)
        × (e.decode json ≡ ok (job_object t))
        × HasContainer t

-- a Job with a container, and no error
abbrev IsGiven : Result Job → Type 0
IsGiven (err x) = ⊥
IsGiven (ok t) = HasContainer t

-- no error
abbrev pub IsOk : {A : Type 0} → Result A → Type 0
IsOk (err x) = ⊥
IsOk (ok a) = Unit

module _ (e : Env) (r : SosreportReconciler) (s : Sosreport) where
  job_from_template-Given :
      (name : String)
      → WorkingTemplate e name
      → Returns (At {e = e} r s) IsGiven (job_from_template e name)
  unfolding job_from_template get_templates_dir first_dir read_template decode_template decode_json
      as_job actions
  job_from_template-Given name works = record {
    run = λ st here.
        let (yaml, json, t, read, parsed, decoded, container) =
          works.file (e.stat "templates" st.w).1 in
        (ok t, rw (works.found st.w) (rw read (rw parsed (rw decoded refl))), container);
  }

  finish_job-Ok :
      (node : String) (environment : StringMap) (name : String) (pvc : PersistentVolumeClaim)
      (t : Result Job)
      → IsGiven t
      → Returns (At {e = e} r s) IsOk (finish_job e node environment name pvc t)
  unfolding finish_job map_to_env_var_arr with_first actions
  finish_job-Ok node environment name pvc (err x) h = absurd h
  finish_job-Ok node environment name pvc (ok t) (c, cs, own) = record {
    run = λ st here.
        let env = map to_env_var (e.range_order (String × String) (entries environment) st.w).0 in
        (
          ok (job_for e st.s node name t (fill_container st.r name env c ∷ cs), pvc),
          rw own refl,
          tt,
        );
  }

  pub job_for_sosreport-Ok :
      (node : String) (environment : StringMap) (capacity : String)
      → count s.metadata.name ≤ 43
      → e.parse_quantity r.pvc_capacity ≡ some capacity
      → WorkingTemplate e "sosreport.yaml"
      → Returns (At {e = e} r s) IsOk (job_for_sosreport e node environment)
  unfolding job_for_sosreport actions
  job_for_sosreport-Ok node environment capacity short parsed works = record {
    run = λ st here.
        let name = job_name s.metadata.name (short_of s node) (e.now st.w).0 in
        let pvc = pvc_for e r s name capacity in
        let rest =
          job_from_template e "sosreport.yaml" >>= finish_job e node environment name pvc in
        let same : job_for_sosreport e node environment st
            ≡ rest (record st { w = (e.now st.w).1 }) =
          ground (
            arith,
            here.reconciler,
            here.sosreport,
            short_name_of_fit s.metadata.name node short,
            parsed,
          ) in
        let total =
          Returns-bind _ (finish_job e node environment name pvc)
            (job_from_template-Given "sosreport.yaml" works)
            (At-job_from_template r s "sosreport.yaml") (finish_job-Ok node environment name pvc) in
        rw same (total.run _ (record { reconciler = here.reconciler; sosreport = here.sosreport }));
  }
