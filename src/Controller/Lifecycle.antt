-- ===== src/Controller/Lifecycle.antt =====
-- The life of a node within a Sosreport, over whole calls of Reconcile of
-- controllers/sosreport_controller.go.
pub mod Trim
pub mod Tracking
pub mod Trimming
pub mod Begin
pub mod Steps
pub mod Call
pub mod First
pub mod Conclude
pub mod Finish
pub mod Cluster
pub mod Round
pub mod Rounds
pub mod Launch
pub mod Second
pub mod Whole
pub mod Reload
pub mod Resume
use sosreport_operator.Prelude.{String, ◌≡◌, Bool, true, false, not, ◌&&◌, ℕ, if◌then◌else◌}
use sosreport_operator.GoMap.{has}
use sosreport_operator.GoMap.Sets.{holds}
use sosreport_operator.Controller.State.{SosreportReconciler}

-- What a node has before it: its job is to be started, or runs; or the operator has no more to do
-- for it.
pub data Phase : Type 0 where
  waiting : Phase
  running : Phase
  over : Phase

-- the phase of a node within the Sosreport with this UID
abbrev pub phase : SosreportReconciler → String → String → Phase
phase r uid node =
    if holds r.job_to_run_list uid node
    then waiting
    else if holds r.job_running_list uid node
    then running
    else over

-- A node goes from one phase to the next, or stays.
pub data Advance : Phase → Phase → Type 0 where
  stay : (p : Phase) → Advance p p
  start : Advance waiting running
  finish : Advance running over

abbrev pub rank : Phase → ℕ
rank waiting = 0
rank running = 1
rank over = 2

-- The Sosreport was started and the operator has both its lists, with no node on both.
pub record Tracked (uid : String) (r : SosreportReconciler) : Type 0 where
  pub listed : has r.run_list uid ≡ true
  pub to_run : has r.job_to_run_list uid ≡ true
  pub running : has r.job_running_list uid ≡ true
  pub exclusive :
      (k : String) → (holds r.job_to_run_list uid k && holds r.job_running_list uid k) ≡ false

-- From `r` to `r'` some nodes of the Sosreport may have left its running list; it is as well known to
-- the operator as before, and its list of jobs to run is the same.
pub record Trimmed (uid : String) (r r' : SosreportReconciler) : Type 0 where
  pub listed : has r'.run_list uid ≡ has r.run_list uid
  pub to_run : has r'.job_to_run_list uid ≡ has r.job_to_run_list uid
  pub running : has r'.job_running_list uid ≡ has r.job_running_list uid
  pub waits : (k : String) → holds r'.job_to_run_list uid k ≡ holds r.job_to_run_list uid k
  pub runs :
      (k : String)
      → (holds r'.job_running_list uid k && not (holds r.job_running_list uid k)) ≡ false
