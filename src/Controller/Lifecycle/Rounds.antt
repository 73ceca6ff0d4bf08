-- ===== src/Controller/Lifecycle/Rounds.antt =====
-- Repeated calls of Reconcile of controllers/sosreport_controller.go for one Sosreport, in a cluster that
-- cooperates.
use sosreport_operator.Prelude.{ℕ, suc, ◌⊎◌, String, ◌≡◌, true}
use sosreport_operator.Api.{Sosreport, NamespacedName}
use sosreport_operator.Env.{Env, ok}
use sosreport_operator.Controller.State.{State}
use sosreport_operator.Controller.Track.Done.{IsEmpty}
use sosreport_operator.Controller.Reconcile.{reconcile}
use sosreport_operator.Controller.Lifecycle.Conclude.{SentFinished}
use sosreport_operator.Controller.Lifecycle.Cluster.{Cooperative, Ended, asking}

-- So many calls of Reconcile, each in a world of its own. Before a call the server has the Sosreport
-- without Finished, and it lists the jobs that the calls before left running as done; once a call has
-- left both lists of the Sosreport empty, the server may have it with Finished.
pub data Rounds (e : Env) (req : NamespacedName) (uid : String) (c : ℕ) (first : State e)
    : ℕ → State e → Type 0 where
  no_round : Rounds e req uid c first 0 first
  round :
      {n : ℕ} {st : State e}
      → Rounds e req uid c first n st
      → (w : e.World) (helps : Cooperative e req uid c w)
      → Ended e req uid st.r (asking e req st.r helps.sosreport helps.after)
      → Rounds e req uid c first (suc n) (reconcile e req (record st { w = w })).1
  rest :
      {n : ℕ} {st : State e}
      → Rounds e req uid c first (suc n) st
      → IsEmpty st.r.job_to_run_list uid
      → IsEmpty st.r.job_running_list uid
      → (w : e.World) (s : Sosreport) (w' : e.World) → e.get_sosreport req w ≡ (ok s, w')
      → s.status.finished ≡ true
      → Rounds e req uid c first (suc (suc n)) (reconcile e req (record st { w = w })).1

-- One of the calls has sent a status with Finished set and InProgress taken back.
unfoldable pub HasSent :
    {e : Env} {req : NamespacedName} {uid : String} {c : ℕ} {first : State e} {n : ℕ}
    {last : State e}
    → Rounds e req uid c first n last
    → Type 0
HasSent no_round = ⊥
HasSent {e} {req} (round {st} rounds w helps ended) =
    HasSent rounds ⊎ SentFinished (reconcile e req (record st { w = w })).1
HasSent (rest rounds to_run running w s w' found over) = HasSent rounds
