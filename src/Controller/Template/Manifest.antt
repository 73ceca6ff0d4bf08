-- ===== src/Controller/Template/Manifest.antt =====
-- What jobForSosreport of controllers/sosreport_controller.go builds for a node.
use sosreport_operator.Prelude.{
  ◌<◌, String, ◌≡◌, refl, true, count, none, some, List, [], ◌∷◌, ◌++◌, arith, Option-cases, inl,
  inr, Any, map, eq_refl, Bool, Option, false, not, ◌&&◌, ◌||◌, ◌==◌, contains,
}
use sosreport_operator.GoMap.{StringMap, entries, get}
use sosreport_operator.GoMap.Assoc.{find}
use sosreport_operator.Exec.{Exec, done, panic, ◌>>=◌}
use sosreport_operator.Exec.Rules.{bind-returns}
use sosreport_operator.Api.{
  Affinity, NodeSelectorRequirement, Sosreport, Container, persistent_volume_claim, Volume, Job,
  PersistentVolumeClaim,
}
use sosreport_operator.Env.{Env, Result, ok, err, SetsController}
use sosreport_operator.Controller.State.{SosreportReconciler, State, actions}
use sosreport_operator.Controller.Frame.{At, At-job_from_template}
use sosreport_operator.Controller.Select.Ownership.{belongs}
use sosreport_operator.Controller.Template.{
  short_name, job_name, pvc_name, with_first, fill_container, to_env_var, affinity_for, owners_or,
  pvc_for, job_for, map_to_env_var_arr, finish_job, job_from_template, job_for_sosreport,
}
use sosreport_operator.Controller.Template.Names.{short_name_panics}
use sosreport_operator.Controller.Track.{node_of}

Any-append : (P : Volume → Type 0) (xs : List Volume) (v : Volume) → P v → Any P (xs ++ v ∷ [])
Any-append P [] v h = inl h
Any-append P (x ∷ xs) v h = inr (Any-append P xs v h)

-- What Kubernetes documents of a required node affinity: a node with these labels is admitted if it
-- meets every expression of one of the terms, and a term without expressions admits none. The
-- operators Gt and Lt, which compare numbers, are left out: they admit none here.
abbrev pub fits : NodeSelectorRequirement → Option String → Bool
fits q none = q.operator == "NotIn" || q.operator == "DoesNotExist"
fits q (some v) =
    (q.operator == "In" && contains v q.values)
    || (q.operator == "NotIn" && not (contains v q.values))
    || q.operator == "Exists"

abbrev pub meets : NodeSelectorRequirement → StringMap → Bool
meets q labels = fits q (get labels q.key)

abbrev pub meets_all : List NodeSelectorRequirement → StringMap → Bool
meets_all [] labels = true
meets_all (q ∷ qs) labels = meets q labels && meets_all qs labels

abbrev pub meets_term : List NodeSelectorRequirement → StringMap → Bool
meets_term [] labels = false
meets_term (q ∷ qs) labels = meets_all (q ∷ qs) labels

abbrev pub meets_some : List (List NodeSelectorRequirement) → StringMap → Bool
meets_some [] labels = false
meets_some (t ∷ ts) labels = meets_term t labels || meets_some ts labels

abbrev pub admits : Option Affinity → StringMap → Bool
admits none labels = true
admits (some a) labels = meets_some a.node_selector_terms labels

abbrev pub is_text : Option String → String → Bool
is_text none t = false
is_text (some v) t = t == v

-- the labels have this host name
abbrev pub labelled : StringMap → String → Bool
labelled labels node = is_text (get labels "kubernetes.io/hostname") node

fits_host :
    (node : String) (o : Option String)
    → (fits (record { key = "kubernetes.io/hostname"; operator = "In"; values = node ∷ [] }) o
          && true
        || false)
      ≡ is_text o node
fits_host node none = refl
fits_host node (some v) = ground arith

affinity_for-admits :
    (node : String) (labels : StringMap)
    → admits (some (affinity_for node)) labels ≡ labelled labels node
unfolding affinity_for
affinity_for-admits node labels = fits_host node (get labels "kubernetes.io/hostname")

module _ (e : Env) where
  -- the job and the claim are those of the node, under one name
  pub record Built (s : Sosreport) (node : String) (job : Job) (pvc : PersistentVolumeClaim)
      : Type 0 where
    pub names : pvc.metadata.name ≡ pvc_name job.metadata.name
    pub namespaces :
        (job.metadata.namespace ≡ s.metadata.namespace)
        × (pvc.metadata.namespace ≡ s.metadata.namespace)
    pub node_recorded : node_of job ≡ node
    pub pinned : (labels : StringMap) → admits job.pod.affinity labels ≡ labelled labels node
    pub tolerations : job.pod.tolerations ≡ s.spec.tolerations
    pub mounts_claim :
        Any (λ (v : Volume). v.source ≡ persistent_volume_claim pvc.metadata.name) job.pod.volumes
    pub owned : belongs s.metadata.uid job ≡ true

  owned_job :
      SetsController e
      → (s : Sosreport) (node name : String) (template : Job) (containers : List Container)
      → belongs s.metadata.uid (job_for e s node name template containers) ≡ true
  unfolding job_for owners_or
  owned_job law s node name template containers =
      rw law.sets (ground (arith, eq_refl s.metadata.uid))

  job_for-Built :
      SetsController e
      → (r : SosreportReconciler) (s : Sosreport) (node name capacity : String) (template : Job)
        (containers : List Container)
      → Built s node (job_for e s node name template containers) (pvc_for e r s name capacity)
  unfolding job_for pvc_for node_of get find
  job_for-Built law r s node name capacity template containers = record {
    names = refl;
    namespaces = (refl, refl);
    node_recorded = refl;
    pinned = affinity_for-admits node;
    tolerations = refl;
    mounts_claim = Any-append _ template.pod.volumes _ refl;
    owned = owned_job law s node name template containers;
  }

  -- the last statements of jobForSosreport
  abbrev finish_after :
      String
      → PersistentVolumeClaim
      → String
      → StringMap
      → Exec (State e) (Result (Job × PersistentVolumeClaim))
  finish_after name pvc node environment = do
    template ← job_from_template e "sosreport.yaml"
    finish_job e node environment name pvc template

  finish_job_result :
      (node : String) (environment : StringMap) (name : String) (pvc : PersistentVolumeClaim)
      (template : Result Job) (st : State e) {job : Job} {pvc' : PersistentVolumeClaim}
      → (finish_job e node environment name pvc template st).0 ≡ done (ok (job, pvc'))
      → (t : Job) × (containers : List Container) × (pvc ≡ pvc')
        × (job_for e st.s node name t containers ≡ job)
  unfolding finish_job map_to_env_var_arr actions
  finish_job_result node environment name pvc (err x) st h = absurd (ground arith)
  finish_job_result node environment name pvc (ok t) st h =
      let env = map to_env_var (e.range_order (String × String) (entries environment) st.w).0 in
      elim (Option-cases (with_first (fill_container st.r name env) t.pod.containers)) [
        | inl a ↦ absurd (ground (arith, a, h))
        | inr (containers, a) ↦ (t, containers, ground (arith, a, h), ground (arith, a, h))
      ]

  finish_after-Built :
      SetsController e
      → (r : SosreportReconciler) (s : Sosreport) (node name capacity : String)
        (environment : StringMap) (st : State e) {job : Job} {pvc : PersistentVolumeClaim}
      → At r s st
      → (finish_after name (pvc_for e r s name capacity) node environment st).0
        ≡ done (ok (job, pvc))
      → Built s node job pvc
  finish_after-Built law r s node name capacity environment st here h =
      let (template, ran, rest) = bind-returns (job_from_template e "sosreport.yaml") _ st h in
      let st' = (job_from_template e "sosreport.yaml" st).1 in
      let there = (At-job_from_template r s "sosreport.yaml").at st here in
      let (t, containers, same_pvc, same_job) =
        finish_job_result node environment name (pvc_for e r s name capacity) template st'
          (rw rest at h) in
      rw (← same_pvc, ← same_job, there.sosreport)
        (job_for-Built law r s node name capacity t containers)

  pub job_for_sosreport-Built :
      SetsController e
      → (node : String) (environment : StringMap) (st : State e) {job : Job}
        {pvc : PersistentVolumeClaim}
      → (job_for_sosreport e node environment st).0 ≡ done (ok (job, pvc))
      → Built st.s node job pvc
  unfolding job_for_sosreport actions
  job_for_sosreport-Built law node environment st h =
      elim (Option-cases (short_name st.s.metadata.name node)) [
        | inl a ↦ absurd (ground (arith, a, h))
        | inr (short, a) ↦ elim (Option-cases (e.parse_quantity st.r.pvc_capacity)) [
          | inl b ↦ absurd (ground (arith, a, b, h))
          | inr (capacity, b) ↦
              let name = job_name st.s.metadata.name short (e.now st.w).0 in
              let pvc' = pvc_for e st.r st.s name capacity in
              let st' : State e = record st { w = (e.now st.w).1 } in
              let same : job_for_sosreport e node environment st
                  ≡ finish_after name pvc' node environment st' =
                ground (arith, a, b) in
              finish_after-Built law st.r st.s node name capacity environment st'
                (record { reconciler = refl; sosreport = refl }) (rw same at h)
        ]
      ]

  -- A Sosreport whose name has more than 43 characters makes jobForSosreport panic, at every node.
  pub long_name_panics :
      (node : String) (environment : StringMap) (st : State e)
      → 43 < count st.s.metadata.name
      → (job_for_sosreport e node environment st).0 ≡ panic
  unfolding job_for_sosreport actions
  long_name_panics node environment st h = rw (short_name_panics st.s.metadata.name node h) refl

  -- A capacity that is no quantity makes jobForSosreport panic, at every node and for every name.
  pub bad_capacity_panics :
      (node : String) (environment : StringMap) (st : State e)
      → e.parse_quantity st.r.pvc_capacity ≡ none
      → (job_for_sosreport e node environment st).0 ≡ panic
  unfolding job_for_sosreport actions
  bad_capacity_panics node environment st h = ground arith
