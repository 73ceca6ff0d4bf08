-- ===== src/Controller/Lifecycle/Launch.antt =====
-- The start of the first jobs of a Sosreport in controllers/sosreport_controller.go: the states before
-- and after it.
use sosreport_operator.Prelude.{
  ◌<◌, String, ◌≡◌, ap, ◌∙◌, true, false, Option, none, List, [], ◌∷◌, arith, eq_refl, length,
}
use sosreport_operator.GoMap.{entries, get, get_map, len, has}
use sosreport_operator.GoMap.Assoc.{find}
use sosreport_operator.GoMap.Sets.{holds}
use sosreport_operator.Exec.{Outcome, done}
use sosreport_operator.Env.{Env, Error}
use sosreport_operator.Controller.State.{SosreportReconciler, State}
use sosreport_operator.Controller.Run.Effect.{Ran}
use sosreport_operator.Controller.Lifecycle.{Tracked}
use sosreport_operator.Controller.Lifecycle.Round.{waiting_nodes}

-- The Sosreport was scheduled, some node of it waits, and no job of it was started.
pub record Awaiting (uid : String) (r : SosreportReconciler) : Type 0 where
  pub listed : has r.run_list uid ≡ true
  pub to_run : has r.job_to_run_list uid ≡ true
  pub unstarted : has r.job_running_list uid ≡ false
  pub waits : 0 < waiting_nodes uid r

-- A call started the first jobs: it returned, the Sosreport is tracked and fewer of its nodes wait.
pub record Launched (e : Env) (uid : String) (r : SosreportReconciler)
    (x : Outcome (Option Error) × State e) : Type 0 where
  pub returns : x.0 ≡ done none
  pub tracked : Tracked uid x.1.r
  pub fewer : waiting_nodes uid x.1.r < waiting_nodes uid r

pub none_held :
    (r : SosreportReconciler) (uid : String)
    → has r.job_running_list uid ≡ false
    → (len (get_map r.job_running_list uid) ≡ 0)
      × ((k : String) → holds r.job_running_list uid k ≡ false)
unfolding get len entries find
none_held r uid h = (ground (arith, h), λ k. ground (arith, h))

has_of_holds :
    (r : SosreportReconciler) (uid k : String)
    → holds r.job_running_list uid k ≡ true
    → has r.job_running_list uid ≡ true
unfolding get entries find
has_of_holds r uid k h = ground (arith, h)

-- where the first job was started the running list has an entry
entered :
    {r r' : SosreportReconciler} {uid : String} (started : List String)
    → Ran r r' uid started
    → 0 < length started
    → has r'.job_running_list uid ≡ true
entered [] ran h = absurd (omega (arith, h))
entered {r} {r'} {uid} (n ∷ ns) ran h =
    has_of_holds r' uid n (ground (arith, ran.moved.running uid n, eq_refl uid, eq_refl n))

pub Ran-Tracked :
    (r r' : SosreportReconciler) (uid : String) (started : List String)
    → Awaiting uid r
    → Ran r r' uid started
    → 0 < length started
    → Tracked uid r'
Ran-Tracked r r' uid started new ran some' = record {
  listed = ap (λ x. has x.run_list uid) ran.moved.others ∙ new.listed;
  to_run = (ran.moved.known uid).to_run new.to_run;
  running = entered started ran some';
  exclusive = λ k. ground (
    arith,
    ran.moved.to_run uid k,
    ran.moved.running uid k,
    eq_refl uid,
    (none_held r uid new.unstarted).1 k,
  );
}
