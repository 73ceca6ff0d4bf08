-- ===== src/Controller/Track/Bounded.antt =====
-- dequeueSosreportJobsDone of controllers/sosreport_controller.go never lengthens the running list.
use sosreport_operator.Prelude.{
  ℕ, ◌≤◌, String, ◌≡◌, refl, none, some, List, [], ◌∷◌, arith, ◌==◌, ◌∙◌, Bool-cases, eq_refl, ℤ,
  Option-cases, inl, inr,
}
use sosreport_operator.GoMap.{GoMap, NodeSet, len, assign, get_text, get_map, delete_in}
use sosreport_operator.GoMap.Laws.{len-delete-le}
use sosreport_operator.GoMap.Sets.{get_map-delete_in}
use sosreport_operator.Json.{marshal}
use sosreport_operator.Exec.{done, panic}
use sosreport_operator.Exec.Rules.{Keeps, Keeps-bind, Keeps-if}
use sosreport_operator.Api.{Sosreport, Job, NamespacedName}
use sosreport_operator.Env.{Env, Result, ok, err, UpdateKeepsIdentity}
use sosreport_operator.Controller.State.{State, return, actions}
use sosreport_operator.Controller.Frame.{At-get_sosreport_jobs}
use sosreport_operator.Controller.Schedule.{annotate, make_annotations}
use sosreport_operator.Controller.Update.{update, refresh_sosreport}
use sosreport_operator.Controller.Select.{is_job_done, get_sosreport_jobs}
use sosreport_operator.Controller.Track.{
  finish_node, node_of, retire_job, dequeue_job, dequeue_loop, annotate_running, dequeue_all,
  dequeue_sosreport_jobs_done,
}

-- The Sosreport with this UID has at most `n` running jobs, and the concurrency is `c`.
pub record Bounded {e : Env} (uid : String) (n : ℕ) (c : ℤ) (st : State e) : Type 0 where
  pub same : st.s.metadata.uid ≡ uid
  pub running : len (get_map st.r.job_running_list uid) ≤ n
  pub concurrency : st.r.sosreport_concurrency ≡ c

len-delete_in-le :
    (m : GoMap NodeSet) (uid node : String)
    → len (get_map (delete_in m uid node) uid) ≤ len (get_map m uid)
len-delete_in-le m uid node =
    ground
      (arith, get_map-delete_in m uid node uid, len-delete-le (get_map m uid) node, eq_refl uid)

module _ {e : Env} (identity : UpdateKeepsIdentity e) (uid : String) (n : ℕ) (c : ℤ) where
  Bounded-return : {A : Type 0} (a : A) → Keeps (Bounded {e = e} uid n c) (return a)
  unfolding return
  Bounded-return a = record { at = λ st h. h }

  Bounded-get_sosreport_jobs :
      (req : NamespacedName) → Keeps (Bounded uid n c) (get_sosreport_jobs e req)
  Bounded-get_sosreport_jobs req = record {
    at = λ st h.
        let here =
          (At-get_sosreport_jobs st.r st.s req).at st
            (record { reconciler = refl; sosreport = refl }) in
        record {
          same = rw here.sosreport h.same;
          running = rw here.reconciler h.running;
          concurrency = rw here.reconciler h.concurrency;
        };
  }

  Bounded-retire_job : (j : Job) → Keeps (Bounded uid n c) (retire_job e j)
  unfolding retire_job finish_node actions
  Bounded-retire_job j = record {
    at = λ st h. record {
      same = ground (arith, h.same);
      running =
          ground (arith, h.running, h.same, len-delete_in-le st.r.job_running_list uid (node_of j));
      concurrency = ground (arith, h.concurrency);
    };
  }

  Bounded-dequeue_loop : (js : List Job) → Keeps (Bounded uid n c) (dequeue_loop e js)
  unfolding dequeue_loop dequeue_job
  Bounded-dequeue_loop [] = Bounded-return tt
  Bounded-dequeue_loop (j ∷ js) =
      Keeps-bind _ (λ _. dequeue_loop e js)
        (Keeps-if (is_job_done j.conditions).0 _ _ (Bounded-retire_job j) (Bounded-return tt))
        λ _. Bounded-dequeue_loop js

  -- The server's answer describes the same object.
  pub Bounded-update : (req : NamespacedName) → Keeps (Bounded uid n c) (update e req)
  unfolding update refresh_sosreport actions
  Bounded-update req = record {
    at = λ st h. record {
      same = identity.uid st.s st.w ∙ h.same;
      running = h.running;
      concurrency = h.concurrency;
    };
  }

  annotated_uid :
      (s s' : Sosreport) (k j : String)
      → annotate s k j ≡ some s'
      → s'.metadata.uid ≡ s.metadata.uid
  unfolding annotate
  annotated_uid s s' k j h = elim (Option-cases (assign s.metadata.annotations k j)) [
    | inl a ↦ ground (arith, a, h)
    | inr (m, a) ↦ ground (arith, a, h)
  ]

  Bounded-annotate_running :
      (req : NamespacedName) → Keeps (Bounded uid n c) (annotate_running e req)
  unfolding annotate_running make_annotations actions
  Bounded-annotate_running req = record {
    at = λ st h.
        let s₁ = make_annotations st.s in
        let j = marshal (get_map st.r.job_running_list st.s.metadata.uid) in
        let mid : State e = record st { s = s₁ } in
        let kept : Bounded uid n c mid = record {
          same = h.same;
          running = h.running;
          concurrency = h.concurrency;
        } in
        elim (Bool-cases (get_text st.s.metadata.annotations "job-running-list" == j)) [
          | inl a ↦
              let ran : annotate_running e req st ≡ (done tt, mid) = ground (arith, a) in
              rw ran kept
          | inr a ↦ elim (Option-cases (annotate s₁ "job-running-list" j)) [
            | inl b ↦
                let ran : annotate_running e req st ≡ (panic, mid) = ground (arith, a, b) in
                rw ran kept
            | inr (s', b) ↦
                let next : State e = record st { s = s' } in
                let ran : annotate_running e req st ≡ update e req next = ground (arith, a, b) in
                rw ran (
                  (Bounded-update req).at next (record {
                    same = annotated_uid s₁ s' "job-running-list" j b ∙ h.same;
                    running = h.running;
                    concurrency = h.concurrency;
                  }))
          ]
        ];
  }

  Bounded-dequeue_all :
      (req : NamespacedName) (js : Result (List Job))
      → Keeps (Bounded uid n c) (dequeue_all e req js)
  unfolding dequeue_all
  Bounded-dequeue_all req (err x) = Bounded-return _
  Bounded-dequeue_all req (ok js) =
      Keeps-bind _ _ (Bounded-dequeue_loop js)
        λ _. Keeps-bind _ _ (Bounded-annotate_running req) λ _. Bounded-return none

  -- dequeueSosreportJobsDone keeps the number of running jobs within a bound, and the concurrency.
  pub Bounded-dequeue_sosreport_jobs_done :
      (req : NamespacedName) → Keeps (Bounded uid n c) (dequeue_sosreport_jobs_done e req)
  unfolding dequeue_sosreport_jobs_done
  Bounded-dequeue_sosreport_jobs_done req =
      Keeps-bind _ _ (Bounded-get_sosreport_jobs req) (Bounded-dequeue_all req)
