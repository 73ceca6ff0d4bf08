-- ===== src/Controller/Run/Bound.antt =====
-- Consequences for the job lists of a call of runSosreportJobs of
-- controllers/sosreport_controller.go: the concurrency is respected, and no node is lost.
use Prim.Native.Nat.{max}
use sosreport_operator.Prelude.{
  ℕ, ◌+◌, ◌≤◌, ◌<◌, String, ◌≡◌, refl, Bool, true, false, ◌||◌, Option, List, [], ◌∷◌, arith, ◌==◌,
  eq_iff, pos, negsuc, two63, Bool-cases, inl, inr, to_int64, minus, contains, contains_of_All,
  length,
}
use sosreport_operator.GoMap.{get_map, len}
use sosreport_operator.GoMap.Sets.{holds}
use sosreport_operator.Exec.{done}
use sosreport_operator.Api.{NamespacedName}
use sosreport_operator.Env.{Env, Error, RangeIsPerm}
use sosreport_operator.Controller.State.{SosreportReconciler, State}
use sosreport_operator.Controller.Run.{run_sosreport_jobs, max_new_sosreports}
use sosreport_operator.Controller.Run.Loop.{Within}
use sosreport_operator.Controller.Run.Effect.{Ran, run_sosreport_jobs-Ran}

-- The limit on new jobs leaves room for those that run.
Within-room :
    (c n k : ℕ) → c < two63 → n < two63 → Within (to_int64 (minus (pos c) n)) k → n + k ≤ max c n
Within-room c n k hc hn h = ground arith

Within-negative : (c n k : ℕ) → c + n < two63 → Within (to_int64 (minus (negsuc c) n)) k → k ≡ 0
Within-negative c n k hc h = ground arith

not_contains_of_empty : (k : String) (l : List String) → length l ≡ 0 → contains k l ≡ false
not_contains_of_empty k [] h = refl
not_contains_of_empty k (x ∷ l) h = absurd (omega arith)

Ran-keeps :
    (r r' : SosreportReconciler) (uid : String) (started : List String) (v k : String)
    → Ran r r' uid started
    → (holds r'.job_to_run_list v k || holds r'.job_running_list v k)
      ≡ (holds r.job_to_run_list v k || holds r.job_running_list v k)
Ran-keeps r r' uid started v k ran = elim (Bool-cases (uid == v)) [
  | inl e ↦ elim (Bool-cases (contains k started)) [
    | inl c ↦
        let same : uid ≡ v = (eq_iff uid v).0 e in
        let was : holds r.job_to_run_list v k ≡ true =
          rw (← same) (contains_of_All (holds r.job_to_run_list uid) started k ran.from c) in
        ground (arith, ran.moved.running v k, ran.moved.to_run v k, was, e, c)
    | inr c ↦ ground (arith, ran.moved.running v k, ran.moved.to_run v k, e, c)
  ]
  | inr e ↦ ground (arith, ran.moved.running v k, ran.moved.to_run v k, e)
]

module _ (e : Env) (law : RangeIsPerm e) (req : NamespacedName) (st : State e) where
  -- With a concurrency of `c`, after a call that returns no more jobs of the Sosreport run than `c`
  -- or than ran before, whichever is more. This assumes that a range visits every entry of a map
  -- once, and that `c` and the number of jobs that ran before fit Go's `int`.
  pub concurrency_respected :
      (c : ℕ) {x : Bool × Option Error}
      → st.r.sosreport_concurrency ≡ pos c
      → c < two63
      → len (get_map st.r.job_running_list st.s.metadata.uid) < two63
      → (run_sosreport_jobs e req st).0 ≡ done x
      → len (get_map (run_sosreport_jobs e req st).1.r.job_running_list st.s.metadata.uid)
        ≤ max c (len (get_map st.r.job_running_list st.s.metadata.uid))
  unfolding max_new_sosreports
  concurrency_respected c conc small few h =
      let (started, ran) = run_sosreport_jobs-Ran e law req st h in
      omega (
        arith,
        ran.moved.size,
        Within-room c (len (get_map st.r.job_running_list st.s.metadata.uid)) (length started) small
            few (rw conc at ran.bound),
      )

  -- A negative concurrency starts nothing: after a call that returns, each list holds the nodes that
  -- it held before. This assumes that a range visits every entry of a map once, and that the
  -- difference of the concurrency and the number of running jobs fits Go's `int`.
  pub negative_concurrency_starts_nothing :
      (c : ℕ) (v k : String) {x : Bool × Option Error}
      → st.r.sosreport_concurrency ≡ negsuc c
      → c + len (get_map st.r.job_running_list st.s.metadata.uid) < two63
      → (run_sosreport_jobs e req st).0 ≡ done x
      → (holds (run_sosreport_jobs e req st).1.r.job_to_run_list v k
          ≡ holds st.r.job_to_run_list v k)
        × (holds (run_sosreport_jobs e req st).1.r.job_running_list v k
            ≡ holds st.r.job_running_list v k)
  unfolding max_new_sosreports
  negative_concurrency_starts_nothing c v k conc small h =
      let (started, ran) = run_sosreport_jobs-Ran e law req st h in
      let none_started : length started ≡ 0 =
        Within-negative c (len (get_map st.r.job_running_list st.s.metadata.uid)) (length started)
          small (rw conc at ran.bound) in
      ground (
        arith,
        not_contains_of_empty k started none_started,
        ran.moved.running v k,
        ran.moved.to_run v k,
      )

  -- A call that returns loses no node and adds none: a node is on one of a Sosreport's two lists
  -- after it exactly if it was on one of them before. This assumes that a range visits every entry of a map
  -- once.
  pub no_node_lost :
      (v k : String) {x : Bool × Option Error}
      → (run_sosreport_jobs e req st).0 ≡ done x
      → (holds (run_sosreport_jobs e req st).1.r.job_to_run_list v k
          || holds (run_sosreport_jobs e req st).1.r.job_running_list v k)
        ≡ (holds st.r.job_to_run_list v k || holds st.r.job_running_list v k)
  no_node_lost v k h =
      let (started, ran) = run_sosreport_jobs-Ran e law req st h in
      Ran-keeps st.r (run_sosreport_jobs e req st).1.r st.s.metadata.uid started v k ran
