-- ===== src/Controller/Select/Ownership.antt =====
-- What objectGetController, isJobDone and getSosreportJobs of
-- controllers/sosreport_controller.go find.
use sosreport_operator.Prelude.{
  String, ◌≡◌, ◌≢◌, ◌↔◌, ◌⊎◌, refl, Bool, true, false, ◌&&◌, ◌||◌, Option, none, some, List, [],
  ◌∷◌, ◌++◌, arith, ◌==◌, eq_iff, select, All, Any, inl, inr, Bool-cases, if◌then◌else◌,
}
use sosreport_operator.Exec.{done, panic}
use sosreport_operator.Api.{OwnerReference, JobCondition, Job}
use sosreport_operator.Controller.Select.{
  object_get_controller, is_job_done, is_owned_by, owned_jobs,
}

-- a condition that says that the job has ended: Complete or Failed, with the status True
abbrev pub IsEnd : JobCondition → Type 0
IsEnd c = ((c.type_ ≡ "Complete") ⊎ (c.type_ ≡ "Failed")) × (c.status ≡ "True")

done_sound : (cs : List JobCondition) → (is_job_done cs).0 ≡ true → Any IsEnd cs
unfolding is_job_done
done_sound [] h = cc
done_sound (c ∷ cs) h =
    elim (Bool-cases ((c.type_ == "Complete" || c.type_ == "Failed") && c.status == "True")) [
      | inl p ↦ inl (
          ground
            (arith, eq_iff c.type_ "Complete", eq_iff c.type_ "Failed", eq_iff c.status "True"))
      | inr p ↦ inr (done_sound cs (ground arith))
    ]

done_complete : (cs : List JobCondition) → Any IsEnd cs → (is_job_done cs).0 ≡ true
unfolding is_job_done
done_complete [] h = absurd h
done_complete (c ∷ cs) (inl h) =
    ground (arith, eq_iff c.type_ "Complete", eq_iff c.type_ "Failed", eq_iff c.status "True")
done_complete (c ∷ cs) (inr h) = ground (arith, done_complete cs h)

-- A job is done exactly when one of its conditions is Complete or Failed with the status True.
pub is_job_done_iff : (cs : List JobCondition) → ((is_job_done cs).0 ≡ true) ↔ Any IsEnd cs
is_job_done_iff cs = (done_sound cs, done_complete cs)

-- every owner reference says whether it is the controller
abbrev pub HasControllers : Job → Type 0
HasControllers j = All (λ (o : OwnerReference). o.controller ≢ none) j.metadata.owner_references

-- the first owner reference that is the controller
abbrev pub controller_of : List OwnerReference → Option OwnerReference
controller_of [] = none
controller_of (o ∷ os) =
    let rest = controller_of os in
    elim o.controller [ none ↦ rest | some c ↦ if c then some o else rest ]

get_controller :
    (os : List OwnerReference)
    → All (λ o. o.controller ≢ none) os
    → object_get_controller os ≡ done (controller_of os)
unfolding object_get_controller
get_controller [] h = refl
get_controller (o ∷ os) h = ground (arith, get_controller os h.1)

-- a job whose controller is the Sosreport with this UID
abbrev pub belongs : String → Job → Bool
belongs uid j = elim (controller_of j.metadata.owner_references) [
  | none ↦ false
  | some o ↦ o.kind == "Sosreport" && o.uid == uid
]

-- If all owner references of the listed jobs say whether they are the controller, the result is
-- exactly the listed jobs, in order, whose controller is the Sosreport with this UID.
pub owned_jobs-eq-select :
    (uid : String) (js : List Job)
    → All HasControllers js
    → owned_jobs uid js ≡ done (select (belongs uid) js)
unfolding owned_jobs is_owned_by
owned_jobs-eq-select uid [] h = refl
owned_jobs-eq-select uid (j ∷ js) h =
    ground (arith, owned_jobs-eq-select uid js h.1, get_controller j.metadata.owner_references h.0)

first_nil :
    (o : OwnerReference) (os l : List OwnerReference)
    → l ≡ o ∷ os
    → o.controller ≡ none
    → object_get_controller l ≡ panic
unfolding object_get_controller
first_nil o os l own nil = rw own (ground arith)

-- A listed job whose first owner reference leaves `controller` out makes the listing panic,
-- whichever jobs stand before it, as long as those name theirs, and after it.
pub owned_jobs_panic :
    (uid : String) (j : Job) (o : OwnerReference) (os : List OwnerReference) (js ks : List Job)
    → j.metadata.owner_references ≡ o ∷ os
    → o.controller ≡ none
    → All HasControllers js
    → owned_jobs uid (js ++ j ∷ ks) ≡ panic
unfolding owned_jobs
owned_jobs_panic uid j o os [] ks own nil h =
    ground (arith, first_nil o os j.metadata.owner_references)
owned_jobs_panic uid j o os (i ∷ js) ks own nil h = ground (
  arith,
  get_controller i.metadata.owner_references h.0,
  owned_jobs_panic uid j o os js ks own nil h.1,
)
