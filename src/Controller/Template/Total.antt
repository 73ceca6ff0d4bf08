-- ===== src/Controller/Template/Total.antt =====
-- When jobForSosreport of controllers/sosreport_controller.go returns.
use sosreport_operator.Prelude.{
  ◌≤◌, ◌-◌, String, ◌<>◌, ◌≡◌, refl, count, some, List, [], ◌∷◌, map, arith, if◌then◌else◌,
}
use sosreport_operator.GoMap.{StringMap, entries}
use sosreport_operator.Exec.{◌>>=◌}
use sosreport_operator.Exec.Total.{Returns, Anything, Returns-bind, Returns-if}
use sosreport_operator.Strings.{split, first_piece}
use sosreport_operator.Api.{Sosreport, Container, Job, PersistentVolumeClaim}
use sosreport_operator.Env.{Env, Result, ok, err, Object, job_object, other_object}
use sosreport_operator.Controller.State.{SosreportReconciler, call, return, actions}
use sosreport_operator.Controller.Frame.{At, At-call, At-first_dir, At-job_from_template}
use sosreport_operator.Controller.Template.{
  first_dir, get_templates_dir, as_job, decode_json, decode_template, read_template,
  job_from_template, map_to_env_var_arr, with_first, finish_job, job_name, pvc_for, job_for,
  fill_container, to_env_var, job_for_sosreport,
}
use sosreport_operator.Controller.Template.Names.{shortened, short_name_of_fit}

-- the pod of the job has a container
abbrev pub HasContainer : Job → Type 0
HasContainer t = (c : Container) × (cs : List Container) × (t.pod.containers ≡ c ∷ cs)

-- no object of another type than a Job, and no Job without a container
abbrev pub IsTemplate : Result Object → Type 0
IsTemplate (err x) = Unit
IsTemplate (ok (job_object t)) = HasContainer t
IsTemplate (ok other_object) = ⊥

abbrev IsJob : Result Job → Type 0
IsJob (err x) = Unit
IsJob (ok t) = HasContainer t

-- Whatever file of this name is read and can be decoded is a Job with a container.
pub record SoundTemplate (e : Env) (name : String) : Type 0 where
  pub sound :
      (dir yaml json : String) (w : e.World)
      → (e.read_file (dir <> ("/" <> name)) w).0 ≡ ok yaml
      → e.yaml_to_json yaml ≡ ok json
      → IsTemplate (e.decode json)

-- the part of the node's name in the names of its Job and claim
abbrev pub short_of : Sosreport → String → String
short_of s node = shortened (first_piece (split b'.' node)) (43 - count s.metadata.name)

module _ (e : Env) (r : SosreportReconciler) (s : Sosreport) where
  as_job-Returns : (o : Result Object) → IsTemplate o → Returns (At {e = e} r s) IsJob (as_job e o)
  unfolding as_job actions
  as_job-Returns (err x) h = record { run = λ st at. (err x, refl, tt) }
  as_job-Returns (ok (job_object t)) h = record { run = λ st at. (ok t, refl, h) }
  as_job-Returns (ok other_object) h = absurd h

  decode_json-Returns :
      (json : Result String)
      → ((t : String) → json ≡ ok t → IsTemplate (e.decode t))
      → Returns (At {e = e} r s) IsJob (decode_json e json)
  unfolding decode_json actions
  decode_json-Returns (err x) h = record { run = λ st at. (err x, refl, tt) }
  decode_json-Returns (ok t) h = as_job-Returns (e.decode t) (h t refl)

  decode_template-Returns :
      (yaml : Result String)
      → ((y t : String) → yaml ≡ ok y → e.yaml_to_json y ≡ ok t → IsTemplate (e.decode t))
      → Returns (At {e = e} r s) IsJob (decode_template e yaml)
  unfolding decode_template actions
  decode_template-Returns (err x) h = record { run = λ st at. (err x, refl, tt) }
  decode_template-Returns (ok y) h = decode_json-Returns (e.yaml_to_json y) (λ t is. h y t refl is)

  read_template-Returns :
      (name : String) (dir : Result String)
      → SoundTemplate e name
      → Returns (At {e = e} r s) IsJob (read_template e name dir)
  unfolding read_template actions
  read_template-Returns name (err x) sound = record { run = λ st at. (err x, refl, tt) }
  read_template-Returns name (ok dir) sound = record {
    run = λ st here.
        let file = e.read_file (dir <> ("/" <> name)) st.w in
        (decode_template-Returns file.0 (λ y t is is'. sound.sound dir y t st.w is is')).run
          (record st { w = file.1 })
          (record { reconciler = here.reconciler; sosreport = here.sosreport });
  }

  first_dir-Returns : (ds : List String) → Returns (At {e = e} r s) Anything (first_dir e ds)
  unfolding first_dir actions
  first_dir-Returns [] = record { run = λ st at. (_, refl, tt) }
  first_dir-Returns (d ∷ ds) =
      Returns-bind {Q = Anything} (call e (e.stat d))
        (λ found. if found then return (ok d) else first_dir e ds)
        (record { run = λ st here. ((e.stat d st.w).0, refl, tt) }) (At-call r s (e.stat d))
        λ found any.
          Returns-if found _ _ (record { run = λ st here. (ok d, refl, tt) }) (first_dir-Returns ds)

  job_from_template-Returns :
      (name : String)
      → SoundTemplate e name
      → Returns (At {e = e} r s) IsJob (job_from_template e name)
  unfolding job_from_template get_templates_dir
  job_from_template-Returns name sound =
      Returns-bind _ (read_template e name) (first_dir-Returns _) (At-first_dir r s _)
        λ dir any. read_template-Returns name dir sound

  finish_job-Returns :
      (node : String) (environment : StringMap) (name : String) (pvc : PersistentVolumeClaim)
      (t : Result Job)
      → IsJob t
      → Returns (At {e = e} r s) Anything (finish_job e node environment name pvc t)
  unfolding finish_job map_to_env_var_arr with_first actions
  finish_job-Returns node environment name pvc (err x) h = record { run = λ st here. (_, refl, tt) }
  finish_job-Returns node environment name pvc (ok t) (c, cs, own) = record {
    run = λ st here.
        let env = map to_env_var (e.range_order (String × String) (entries environment) st.w).0 in
        (
          ok (job_for e st.s node name t (fill_container st.r name env c ∷ cs), pvc),
          rw own refl,
          tt,
        );
  }

  pub job_for_sosreport-Returns :
      (node : String) (environment : StringMap) (capacity : String)
      → count s.metadata.name ≤ 43
      → e.parse_quantity r.pvc_capacity ≡ some capacity
      → SoundTemplate e "sosreport.yaml"
      → Returns (At {e = e} r s) Anything (job_for_sosreport e node environment)
  unfolding job_for_sosreport actions
  job_for_sosreport-Returns node environment capacity short parsed sound = record {
    run = λ st here.
        let name = job_name s.metadata.name (short_of s node) (e.now st.w).0 in
        let pvc = pvc_for e r s name capacity in
        let rest =
          job_from_template e "sosreport.yaml" >>= finish_job e node environment name pvc in
        let same : job_for_sosreport e node environment st
            ≡ rest (record st { w = (e.now st.w).1 }) =
          ground (
            arith,
            here.reconciler,
            here.sosreport,
            short_name_of_fit s.metadata.name node short,
            parsed,
          ) in
        let total =
          Returns-bind _ (finish_job e node environment name pvc)
            (job_from_template-Returns "sosreport.yaml" sound)
            (At-job_from_template r s "sosreport.yaml")
            (finish_job-Returns node environment name pvc) in
        rw same (total.run _ (record { reconciler = here.reconciler; sosreport = here.sosreport }));
  }
