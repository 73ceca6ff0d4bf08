-- ===== src/Controller/Track/Dequeue.antt =====
-- What dequeueSosreportJobsDone of controllers/sosreport_controller.go does to the job lists.
use sosreport_operator.Prelude.{
  String, ◌≡◌, refl, true, false, not, ◌&&◌, List, [], ◌∷◌, map, arith, ◌∙◌, ◌==◌, eq_iff, select,
  contains, Bool-cases, inl, inr,
}
use sosreport_operator.GoMap.{GoMap, NodeSet, get_map, has}
use sosreport_operator.GoMap.Sets.{holds, holds-delete_in}
use sosreport_operator.Exec.{done}
use sosreport_operator.Exec.Rules.{bind_of_done}
use sosreport_operator.Api.{Job}
use sosreport_operator.Env.{Env}
use sosreport_operator.Controller.State.{SosreportReconciler, State, actions}
use sosreport_operator.Controller.Select.{is_job_done}
use sosreport_operator.Controller.Track.{
  node_of, finish_node, retire_job, dequeue_job, dequeue_loop,
}

-- the nodes of the jobs that are done
abbrev pub finished_nodes : List Job → List String
finished_nodes js = map node_of (select (λ j. (is_job_done j.conditions).0) js)

-- From `r` to `r'` the given nodes have left the running list of the Sosreport, and nothing else has
-- changed.
pub record Dequeued (uid : String) (r r' : SosreportReconciler) (nodes : List String) : Type 0 where
  pub running :
      (v k : String)
      → holds r'.job_running_list v k
        ≡ (not (uid == v && contains k nodes) && holds r.job_running_list v k)
  pub others : r' ≡ record r { job_running_list = r'.job_running_list }

-- one more node
Dequeued-cons :
    {uid : String} {r r₁ r₂ : SosreportReconciler} {nodes : List String} (n : String)
    → Dequeued uid r r₁ (n ∷ [])
    → Dequeued uid r₁ r₂ nodes
    → Dequeued uid r r₂ (n ∷ nodes)
Dequeued-cons n a b = record {
  running = λ v k. ground (arith, a.running v k, b.running v k);
  others = ground (arith, a.others, b.others);
}

-- To delete a node that is not there changes nothing.
absent_deleted :
    (uid n v k : String) (m : GoMap NodeSet)
    → holds m uid n ≡ false
    → holds m v k ≡ (not (uid == v && contains k (n ∷ [])) && holds m v k)
absent_deleted uid n v k m h = elim (Bool-cases (uid == v)) [
  | inl a ↦ elim (Bool-cases (n == k)) [
    | inl b ↦
        let same : uid ≡ v = (eq_iff uid v).0 a in
        let same' : n ≡ k = (eq_iff n k).0 b in
        let gone : holds m v k ≡ false = rw (← same, ← same') h in ground (arith, a, b, gone)
    | inr b ↦ ground (arith, a, b)
  ]
  | inr a ↦ ground (arith, a)
]

finish_node-Dequeued :
    (uid n : String) (r : SosreportReconciler) → Dequeued uid r (finish_node r uid n) (n ∷ [])
unfolding finish_node
finish_node-Dequeued uid n r = record {
  running = λ v k. ground (arith, holds-delete_in r.job_running_list uid n v k);
  others = refl;
}

module _ (e : Env) where
  retire_job-Dequeued :
      (j : Job) (st : State e)
      → Dequeued st.s.metadata.uid st.r (retire_job e j st).1.r (node_of j ∷ [])
  unfolding retire_job actions
  retire_job-Dequeued j st =
      elim (Bool-cases (has (get_map st.r.job_running_list st.s.metadata.uid) (node_of j))) [
        | inl there ↦ rw (there) (finish_node-Dequeued st.s.metadata.uid (node_of j) st.r)
        | inr gone ↦ rw gone (record {
          running =
              λ v k. absent_deleted st.s.metadata.uid (node_of j) v k st.r.job_running_list gone;
          others = refl;
        })
      ]

  retire_job_returns :
      (j : Job) (st : State e)
      → ((retire_job e j st).0 ≡ done tt) × ((retire_job e j st).1.s ≡ st.s)
  unfolding retire_job actions
  retire_job_returns j st = ground arith

  nothing_to_do :
      (st : State e)
      → ((dequeue_loop e [] st).0 ≡ done tt)
        × ((dequeue_loop e [] st).1.s ≡ st.s)
        × Dequeued st.s.metadata.uid st.r (dequeue_loop e [] st).1.r []
  unfolding dequeue_loop actions
  nothing_to_do st = (refl, refl, record { running = λ v k. ground arith; others = refl })

  loop_done :
      (j : Job) (js : List Job) (st : State e)
      → (is_job_done j.conditions).0 ≡ true
      → dequeue_loop e (j ∷ js) st ≡ dequeue_loop e js (retire_job e j st).1
  unfolding dequeue_loop dequeue_job
  loop_done j js st h = rw h (bind_of_done (retire_job e j) _ st (retire_job_returns j st).0)

  loop_running :
      (j : Job) (js : List Job) (st : State e)
      → (is_job_done j.conditions).0 ≡ false
      → dequeue_loop e (j ∷ js) st ≡ dequeue_loop e js st
  unfolding dequeue_loop dequeue_job actions
  loop_running j js st h = rw h

  -- The loop of dequeueSosreportJobsDone returns, leaves the Sosreport object alone, and takes the
  -- nodes of the jobs that are done, and nothing else, from the running list of the Sosreport.
  pub dequeue_loop-Dequeued :
      (js : List Job) (st : State e)
      → ((dequeue_loop e js st).0 ≡ done tt)
        × ((dequeue_loop e js st).1.s ≡ st.s)
        × Dequeued st.s.metadata.uid st.r (dequeue_loop e js st).1.r (finished_nodes js)
  dequeue_loop-Dequeued [] st = nothing_to_do st
  dequeue_loop-Dequeued (j ∷ js) st = elim (Bool-cases (is_job_done j.conditions).0) [
    | inl finished ↦
        let st' = (retire_job e j st).1 in
        let (returns, same) = retire_job_returns j st in
        let (ih, kept, gone) = dequeue_loop-Dequeued js st' in
        rw (finished, loop_done j js st finished)
          (ih, kept ∙ same, Dequeued-cons (node_of j) (retire_job-Dequeued j st) (rw same at gone))
    | inr running ↦ rw (running, loop_running j js st running) (dequeue_loop-Dequeued js st)
  ]
