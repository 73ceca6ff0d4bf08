-- ===== src/Controller/Track/Restart.antt =====
-- How synchronizeJobRunningCache of controllers/sosreport_controller.go brings back the job lists
-- that a restarted operator has lost.
use sosreport_operator.Prelude.{
  if◌then◌else◌, String, ◌≡◌, refl, Option, none, some, List, arith, ◌==◌, eq_iff, Option-cases,
  inl, inr,
}
use sosreport_operator.GoMap.{GoMap, NodeSet, made, get, assign}
use sosreport_operator.GoMap.Assoc.{put}
use sosreport_operator.GoMap.Laws.{get-assign}
use sosreport_operator.Json.{unmarshal}
use sosreport_operator.Exec.{done}
use sosreport_operator.Env.{Env}
use sosreport_operator.Controller.State.{State, actions}
use sosreport_operator.Controller.Track.{
  loaded, load_annotation, store_annotation, load_job_to_run_list, load_job_running_list,
  synchronize_job_running_cache,
}

-- what a cache holds for the Sosreport after the annotation was looked at: its own entry, if it
-- has one, else what the annotation says, else nothing; an annotation that cannot be read has no
-- answer
abbrev pub restored : Option NodeSet → Option String → Option (Option NodeSet)
restored (some names) annotation = some (some names)
restored none none = some none
restored none (some json) = elim (unmarshal json) [ none ↦ none | some names ↦ some (some names) ]

-- From one cache to the other, the Sosreport has these names, and no other entry has changed.
pub record Restored (uid : String) (m m' : GoMap NodeSet) (names : Option NodeSet) : Type 0 where
  pub entry : (v : String) → get m' v ≡ (if uid == v then names else get m v)

same-Restored : (uid : String) (m : GoMap NodeSet) → Restored uid m m (get m uid)
same-Restored uid m = record { entry = λ v. ground (arith, eq_iff uid v) }

stored-Restored :
    (uid : String) (l : List (String × NodeSet)) (names : NodeSet)
    → Restored uid (made l) (made (put uid names l)) (some names)
unfolding assign
stored-Restored uid l names = record {
  entry = λ v. get-assign (made l) uid names {m' = made (put uid names l)} v refl;
}

load_lem :
    (l : List (String × NodeSet)) (uid : String) (annotation : Option String)
    {names : Option NodeSet}
    → restored (get (made l) uid) annotation ≡ some names
    → (m : GoMap NodeSet) × (load_annotation (made l) uid annotation ≡ loaded (some m))
      × Restored uid (made l) m names
unfolding load_annotation store_annotation assign
load_lem l uid annotation {names} h = elim (Option-cases (get (made l) uid)) [
  | inr (old, e) ↦
      let same : get (made l) uid ≡ names = ground (arith, e, h) in
      (made l, rw e refl, rw same at (same-Restored uid (made l)))
  | inl e ↦ elim (Option-cases annotation) [
    | inl f ↦
        let same : get (made l) uid ≡ names = ground (arith, e, f, h) in
        (made l, rw (e, f) refl, rw same at (same-Restored uid (made l)))
    | inr (json, f) ↦ elim (Option-cases (unmarshal json)) [
      | inl g ↦ absurd (ground (arith, e, f, g, h))
      | inr (new, g) ↦
          let same : some new ≡ names = ground (arith, e, f, g, h) in
          (made (put uid new l), rw (e, f) (rw g refl), rw same at (stored-Restored uid l new))
    ]
  ]
]

-- the annotations that keep the two lists
abbrev pub saved : {e : Env} → State e → String → Option String
saved st k = get st.s.metadata.annotations k

module _ (e : Env) (st : State e) (to_run running : List (String × NodeSet)) where
  -- both halves
  both_loaded :
      {names names' : Option NodeSet}
      → st.r.job_to_run_list ≡ made to_run
      → st.r.job_running_list ≡ made running
      → restored (get (made to_run) st.s.metadata.uid) (saved st "job-to-run-list") ≡ some names
      → restored (get (made running) st.s.metadata.uid) (saved st "job-running-list") ≡ some names'
      → (m : GoMap NodeSet) × (m' : GoMap NodeSet) × (load_annotation st.r.job_to_run_list
            st.s.metadata.uid
            (saved st "job-to-run-list")
          ≡ loaded (some m))
        × (load_annotation st.r.job_running_list st.s.metadata.uid (saved st "job-running-list")
            ≡ loaded (some m'))
        × Restored st.s.metadata.uid (made to_run) m names
        × Restored st.s.metadata.uid (made running) m' names'
  both_loaded {names} {names'} a b h h' =
      let (m, is, kept) =
        load_lem to_run st.s.metadata.uid (saved st "job-to-run-list") {names = names} h in
      let (m', is', kept') =
        load_lem running st.s.metadata.uid (saved st "job-running-list") {names = names'} h' in
      (m, m', rw a is, rw b is', kept, kept')

  -- Where both annotations can be read, or are not needed, synchronizeJobRunningCache returns no
  -- error and makes no call; each of the two caches, once made, then holds for the Sosreport what it
  -- held, or else what the annotation says, and every other Sosreport's entries are as they were.
  pub synchronize_job_running_cache-Restored :
      {names names' : Option NodeSet}
      → st.r.job_to_run_list ≡ made to_run
      → st.r.job_running_list ≡ made running
      → restored (get (made to_run) st.s.metadata.uid) (saved st "job-to-run-list") ≡ some names
      → restored (get (made running) st.s.metadata.uid) (saved st "job-running-list") ≡ some names'
      → ((synchronize_job_running_cache e st).0 ≡ done none)
        × ((synchronize_job_running_cache e st).1.s ≡ st.s)
        × ((synchronize_job_running_cache e st).1.w ≡ st.w)
        × Restored st.s.metadata.uid st.r.job_to_run_list
            (synchronize_job_running_cache e st).1.r.job_to_run_list
            names
        × Restored st.s.metadata.uid st.r.job_running_list
            (synchronize_job_running_cache e st).1.r.job_running_list
            names'
  unfolding synchronize_job_running_cache load_job_to_run_list load_job_running_list actions
  synchronize_job_running_cache-Restored {names} {names'} a b h h' =
      let (m, m', first, second, kept, kept') =
        both_loaded {names = names} {names' = names'} a b h h' in
      rw (first, second) (refl, refl, refl, rw a kept, rw b kept')

  -- the capacity is as it was
  pub pvc_capacity-synchronize_job_running_cache :
      {names names' : Option NodeSet}
      → st.r.job_to_run_list ≡ made to_run
      → st.r.job_running_list ≡ made running
      → restored (get (made to_run) st.s.metadata.uid) (saved st "job-to-run-list") ≡ some names
      → restored (get (made running) st.s.metadata.uid) (saved st "job-running-list") ≡ some names'
      → (synchronize_job_running_cache e st).1.r.pvc_capacity ≡ st.r.pvc_capacity
  unfolding synchronize_job_running_cache load_job_to_run_list load_job_running_list actions
  pvc_capacity-synchronize_job_running_cache {names} {names'} a b h h' =
      let (m, m', first, second, kept, kept') =
        both_loaded {names = names} {names' = names'} a b h h' in
      rw (first, second) refl
