-- ===== src/Controller/Run/Progress.antt =====
-- The progress that a call of runSosreportJobs of controllers/sosreport_controller.go makes in a
-- cluster that creates what it is asked to.
use Prim.Native.Nat.{min}
use sosreport_operator.Prelude.{
  ℕ, ◌-◌, ◌≤◌, ◌<◌, String, ◌≡◌, true, count, none, some, List, [], ◌∷◌, arith, pos, length,
  to_int64, minus, two63,
}
use sosreport_operator.GoMap.{NodeSet, made, get_map, len}
use sosreport_operator.Exec.{done}
use sosreport_operator.Api.{NamespacedName}
use sosreport_operator.Env.{Env, RangeIsPerm, CreatesObjects}
use sosreport_operator.Controller.State.{SosreportReconciler, State}
use sosreport_operator.Controller.Template.Total.{SoundTemplate}
use sosreport_operator.Controller.Template.Works.{WorkingTemplate}
use sosreport_operator.Controller.Run.{run_sosreport_jobs, max_new_sosreports}
use sosreport_operator.Controller.Run.Fill.{slots, start_loop-fills}
use sosreport_operator.Controller.Run.Effect.{Ran, LoopGives, run_sosreport_jobs_started}
use sosreport_operator.Controller.Run.Total.{run_sosreport_jobs_returns}

done_eq : {A : Type 0} {a b : A} → done a ≡ done b → a ≡ b
done_eq h = cc

slots_of : (c n : ℕ) → c < two63 → n < two63 → slots (to_int64 (minus (pos c) n)) ≡ c - n
slots_of c n hc hn = ground arith

pub free_slots :
    (r : SosreportReconciler) (uid : String) (c : ℕ)
    → r.sosreport_concurrency ≡ pos c
    → c < two63
    → len (get_map r.job_running_list uid) < two63
    → slots (max_new_sosreports r uid) ≡ c - len (get_map r.job_running_list uid)
unfolding max_new_sosreports
free_slots r uid c conc small few =
    rw conc (slots_of c (len (get_map r.job_running_list uid)) small few)

-- The first of the started nodes no longer waits.
shrunk :
    {r r' : SosreportReconciler} {uid : String} (started : List String)
    → Ran r r' uid started
    → 0 < length started
    → len (get_map r'.job_to_run_list uid) < len (get_map r.job_to_run_list uid)
shrunk [] ran h = omega (arith, h)
shrunk (n ∷ ns) ran h = ground (arith, ran.moved.shrinks, ran.from)

module _ (e : Env) (creates : CreatesObjects e) (works : WorkingTemplate e "sosreport.yaml")
    (st : State e) {capacity : String} where
  pub loop_fills :
      count st.s.metadata.name ≤ 43
      → e.parse_quantity st.r.pvc_capacity ≡ some capacity
      → LoopGives e st.r st.s (λ started.
        length started
        ≡ min
            (slots (max_new_sosreports st.r st.s.metadata.uid))
            (len (get_map st.r.job_to_run_list st.s.metadata.uid)))
  loop_fills short parsed environment names new st' here size loop =
      let limit = max_new_sosreports st.r st.s.metadata.uid in
      let (new', ran, filled) =
        start_loop-fills e st.r st.s creates short parsed works environment limit 0 [] names st'
          here in
      let same : new' ≡ new = done_eq (rw ran at loop) in
      let sized : length new'
          ≡ min (slots limit) (len (get_map st.r.job_to_run_list st.s.metadata.uid)) =
        omega (arith, filled, size) in
      rw same at sized

-- In a cluster that creates what it is asked to, runSosreportJobs returns, and it has moved as many nodes
-- to the list of running jobs as slots were free, or as nodes waited, whichever is less: free are the
-- concurrency `c` less the jobs that ran before. Where a slot was free and a node waited, the
-- Sosreport's list of jobs to run is shorter afterwards. This assumes that a range visits every entry of
-- a map once, that the template is found and is a Job with a container, that the capacity is a quantity,
-- that the name of the Sosreport has at most 43 characters, that the map of running jobs and the
-- annotations are made, and that `c` and the number of running jobs fit Go's `int`.
pub free_slots_filled :
    (e : Env)
    → RangeIsPerm e
    → CreatesObjects e
    → SoundTemplate e "sosreport.yaml"
    → WorkingTemplate e "sosreport.yaml"
    → (req : NamespacedName) (st : State e) (c : ℕ) {capacity : String}
      {l : List (String × NodeSet)} {a : List (String × String)}
    → count st.s.metadata.name ≤ 43
    → e.parse_quantity st.r.pvc_capacity ≡ some capacity
    → st.r.job_running_list ≡ made l
    → st.s.metadata.annotations ≡ made a
    → st.r.sosreport_concurrency ≡ pos c
    → c < two63
    → len (get_map st.r.job_running_list st.s.metadata.uid) < two63
    → let uid = st.s.metadata.uid in
      let st' = (run_sosreport_jobs e req st).1 in
      let free = c - len (get_map st.r.job_running_list uid) in
      ((run_sosreport_jobs e req st).0 ≡ done (true, none))
      × ((started : List String) × Ran st.r st'.r uid started
          × (length started ≡ min free (len (get_map st.r.job_to_run_list uid)))
          × (0 < free
              → 0 < len (get_map st.r.job_to_run_list uid)
              → len (get_map st'.r.job_to_run_list uid) < len (get_map st.r.job_to_run_list uid)))
free_slots_filled e law creates sound works req st c {capacity} {l} {a} short parsed is is' conc
      small few =
    let uid = st.s.metadata.uid in
    let returns = run_sosreport_jobs_returns e req st short parsed sound is is' in
    let (started, ran, filled) =
      run_sosreport_jobs_started e law _ req st (loop_fills e creates works st short parsed)
        returns in
    let size : length started
        ≡ min (c - len (get_map st.r.job_running_list uid))
            (len (get_map st.r.job_to_run_list uid)) =
      omega (arith, filled, free_slots st.r uid c conc small few) in
    (returns, (started, ran, size, λ free there. shrunk started ran (omega (arith, size))))
