-- ===== src/Controller/Run/Created.antt =====
-- The jobs that runSosreportJobs of controllers/sosreport_controller.go creates on the server.
use mathlib.Core.List.{append-nil, append_assoc}
use sosreport_operator.Prelude.{
  ℕ, ◌+◌, String, ◌≡◌, ◌∙◌, ap, sym, refl, Bool, true, false, List, [], ◌∷◌, ◌++◌, map, arith, ℤ,
  at_least, All, Bool-cases, Option-cases, inl, inr, if◌then◌else◌,
}
use sosreport_operator.GoMap.{StringMap}
use sosreport_operator.Exec.{done}
use sosreport_operator.Exec.Rules.{bind-returns}
use sosreport_operator.Api.{Sosreport, Job, PersistentVolumeClaim}
use sosreport_operator.Env.{Env, Result, ok, err, SetsController}
use sosreport_operator.Controller.State.{SosreportReconciler, State, actions}
use sosreport_operator.Controller.Frame.{At, At-start_job}
use sosreport_operator.Controller.Frame.Log.{logged, logged-SetsController, Logs-job_for_sosreport}
use sosreport_operator.Controller.Select.Ownership.{belongs}
use sosreport_operator.Controller.Template.{job_for_sosreport}
use sosreport_operator.Controller.Template.Manifest.{job_for_sosreport-Built}
use sosreport_operator.Controller.Track.{node_of}
use sosreport_operator.Controller.Run.{job_created, pvc_created, create_both, start_job, start_loop}

map-append : {A B : Type 0} (f : A → B) (a b : List A) → map f (a ++ b) ≡ map f a ++ map f b
map-append f [] b = refl
map-append f (x ∷ a) b = ap (λ t. f x ∷ t) (map-append f a b)

All-append : {A : Type 0} (P : A → Type 0) (a b : List A) → All P a → All P b → All P (a ++ b)
All-append P [] b h k = k
All-append P (x ∷ a) b (p, h) k = (p, All-append P a b h k)

-- Between two logs the server has created one Job of the Sosreport for each of these nodes, in this
-- order, and no other.
pub record Created (uid : String) (before after : List Job) (nodes : List String) : Type 0 where
  pub jobs : List Job
  pub appended : after ≡ before ++ jobs
  pub nodes_of : map node_of jobs ≡ nodes
  pub owned : All (λ j. belongs uid j ≡ true) jobs

pub Created-none : {uid : String} (l : List Job) → Created uid l l []
Created-none l = record { jobs = []; appended = sym (append-nil l); nodes_of = refl; owned = tt }

Created-trans :
    {uid : String} {a b c : List Job} {xs ys : List String}
    → Created uid a b xs
    → Created uid b c ys
    → Created uid a c (xs ++ ys)
Created-trans {uid} {a} {xs = xs} f g = record {
  jobs = f.jobs ++ g.jobs;
  appended = g.appended ∙ (ap (λ l. l ++ g.jobs) f.appended ∙ append_assoc a f.jobs g.jobs);
  nodes_of =
      map-append node_of f.jobs g.jobs
      ∙ (ap (λ l. l ++ map node_of g.jobs) f.nodes_of ∙ ap (λ l. xs ++ l) g.nodes_of);
  owned = All-append (λ j. belongs uid j ≡ true) f.jobs g.jobs f.owned g.owned;
}

-- the node, if its job was started
abbrev if_started : Bool → String → List String
if_started b node = if b then node ∷ [] else []

extended :
    (b : Bool) (new : List String) (n : String) (more : List String)
    → (if b then new ++ (n ∷ []) else new) ++ more ≡ new ++ (if_started b n ++ more)
extended true new n more = append_assoc new (n ∷ []) more
extended false new n more = refl

module _ (e : Env) (law : SetsController e) where
  create_both-Created :
      (uid node : String) (o : Result (Job × PersistentVolumeClaim)) (st : State (logged e))
      {b : Bool}
      → ((job : Job) (pvc : PersistentVolumeClaim)
          → o ≡ ok (job, pvc)
          → (node_of job ≡ node) × (belongs uid job ≡ true))
      → (create_both (logged e) node o st).0 ≡ done b
      → Created uid st.w.1 (create_both (logged e) node o st).1.w.1 (if_started b node)
  unfolding create_both pvc_created job_created actions
  create_both-Created uid node (err x) st {b} own h =
      let same : false ≡ b = ground arith in rw (← same) (Created-none st.w.1)
  create_both-Created uid node (ok (job, pvc)) st {b} own h =
      let w₁ = (e.create_pvc pvc st.w.0).1 in
      elim (Option-cases (e.create_pvc pvc st.w.0).0) [
        | inr (x, p) ↦
            let same : false ≡ b = ground (arith, p, h) in rw (p, ← same) (Created-none st.w.1)
        | inl p ↦ elim (Option-cases (e.create_job job w₁).0) [
          | inr (x, q) ↦
              let same : false ≡ b = ground (arith, p, q, h) in
              rw (p, ← same) (rw q (Created-none st.w.1))
          | inl q ↦
              let same : true ≡ b = ground (arith, p, q, h) in
              let (its, belong) = own job pvc refl in
              rw (p, ← same)
                (rw q (record {
                  jobs = job ∷ [];
                  appended = refl;
                  nodes_of = ap (λ n. n ∷ []) its;
                  owned = (belong, tt);
                }))
        ]
      ]

  module _ (r : SosreportReconciler) (s : Sosreport) (environment : StringMap) where
    start_job-Created :
        (node : String) (st : State (logged e)) {b : Bool}
        → At {e = logged e} r s st
        → (start_job (logged e) environment node st).0 ≡ done b
        → Created s.metadata.uid st.w.1
            (start_job (logged e) environment node st).1.w.1
            (if_started b node)
    unfolding start_job
    start_job-Created node st here h =
        let make = job_for_sosreport (logged e) node environment in
        let (o, ran, rest) = bind-returns make (create_both (logged e) node) st h in
        let same =
          ((Logs-job_for_sosreport st.w.1 node environment).at st (record { kept = refl })).kept in
        let built : (job : Job) (pvc : PersistentVolumeClaim)
            → o ≡ ok (job, pvc)
            → (node_of job ≡ node) × (belongs s.metadata.uid job ≡ true) =
          λ job pvc is.
            let its =
              job_for_sosreport-Built (logged e) (logged-SetsController e law) node environment st
                (ran ∙ ap done is) in
            (its.node_recorded, rw here.sosreport at (its.owned)) in
        rw rest
          (rw same at (create_both-Created s.metadata.uid node o (make st).1 built (rw rest at h)))

    -- The loop appends to its list the nodes of the jobs that the server creates.
    pub start_loop-Created :
        (limit : ℤ) (i : ℕ) (new nodes : List String) (st : State (logged e)) {new' : List String}
        → At {e = logged e} r s st
        → (start_loop (logged e) environment limit i new nodes st).0 ≡ done new'
        → (more : List String) × (new' ≡ new ++ more)
          × Created s.metadata.uid st.w.1
              (start_loop (logged e) environment limit i new nodes st).1.w.1
              more
    unfolding start_loop actions
    start_loop-Created limit i new [] st {new'} here h =
        let same : new ≡ new' = ground arith in
        ([], sym same ∙ sym (append-nil new), Created-none st.w.1)
    start_loop-Created limit i new (n ∷ ns) st {new'} here h =
        elim (Bool-cases (at_least i limit)) [
          | inl full ↦
              let same : new ≡ new' = ground arith in
              rw full ([], sym same ∙ sym (append-nil new), Created-none st.w.1)
          | inr room ↦
              let next = λ (b : Bool).
                start_loop (logged e) environment limit (if b then i + 1 else i)
                  (if b then new ++ (n ∷ []) else new) ns in
              let (b, ran, rest) =
                bind-returns (start_job (logged e) environment n) next st {b = new'}
                  (rw room at h) in
              let st' = (start_job (logged e) environment n st).1 in
              let there = (At-start_job r s environment n).at st here in
              let first = start_job-Created n st here ran in
              let (more, is, then') =
                start_loop-Created limit (if b then i + 1 else i)
                  (if b then new ++ (n ∷ []) else new) ns st' there (rw rest at (rw room at h)) in
              (
                if_started b n ++ more,
                is ∙ extended b new n more,
                rw room (rw rest (Created-trans first then')),
              )
        ]
