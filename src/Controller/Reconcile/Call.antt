-- ===== src/Controller/Reconcile/Call.antt =====
-- A whole call of Reconcile of controllers/sosreport_controller.go for a Sosreport that was started.
use Prim.Native.Nat.{max}
use sosreport_operator.Prelude.{
  ℕ, ◌≤◌, ◌<◌, String, ◌≡◌, refl, ap, true, false, Option, some, arith, ◌∙◌, pos, two63,
}
use sosreport_operator.GoMap.{GoMap, nil_map, made, entries, get, get_map, len, has, or_made}
use sosreport_operator.GoMap.Assoc.{find}
use sosreport_operator.Exec.{done, ◌>>=◌}
use sosreport_operator.Exec.Rules.{bind_of_done}
use sosreport_operator.Strings.{atoi}
use sosreport_operator.Api.{Sosreport, NamespacedName}
use sosreport_operator.Env.{Env, Error, ok, RangeIsPerm, UpdateKeepsIdentity}
use sosreport_operator.Controller.State.{
  State, actions, development_config_map_name, global_config_map_name,
}
use sosreport_operator.Controller.Config.Settings.{value_of}
use sosreport_operator.Controller.Reconcile.{
  configure, dispatch, progress, reconcile, reconcile_found,
}
use sosreport_operator.Controller.Reconcile.Branches.{dispatch_started}
use sosreport_operator.Controller.Reconcile.Configure.{config_map, configure_lem}
use sosreport_operator.Controller.Reconcile.Concurrency.{progress_respects_concurrency}

get-or_made : {V : Type 0} (m : GoMap V) (k : String) → get (or_made m) k ≡ get m k
unfolding get entries find
get-or_made nil_map k = refl
get-or_made (made l) k = refl

module _ (e : Env) where
  pub reached :
      (req : NamespacedName) (st : State e) (s : Sosreport) (w : e.World)
      → e.get_sosreport req st.w ≡ (ok s, w)
      → s.status.finished ≡ false
      → reconcile e req st
        ≡ (configure e req >>= λ _. dispatch e req) (record { r = st.r; s = s; w = w })
  unfolding reconcile reconcile_found actions
  reached req st s w found unfinished = ground (arith, found, unfinished)

  -- A whole call of Reconcile keeps to the concurrency: for a Sosreport that the server knows, that is
  -- not finished and is on the runList, with an entry in both caches and the concurrency `c` in the
  -- global ConfigMap, if the call returns, no more jobs of the Sosreport run afterwards than `c` or
  -- than ran before, whichever is more. This assumes that a range visits every entry of a map once,
  -- that the answer to an update describes the same object, and that both numbers fit Go's `int`.
  pub reconcile_respects_concurrency :
      RangeIsPerm e
      → UpdateKeepsIdentity e
      → (req : NamespacedName) (st : State e) (s : Sosreport) (w : e.World) (v : String) (c : ℕ)
        {x : Option Error}
      → e.get_sosreport req st.w ≡ (ok s, w)
      → s.status.finished ≡ false
      → has st.r.run_list s.metadata.uid ≡ true
      → has st.r.job_to_run_list s.metadata.uid ≡ true
      → has st.r.job_running_list s.metadata.uid ≡ true
      → value_of
          (config_map e global_config_map_name req
            (config_map e development_config_map_name req w).1).0
          "concurrency"
        ≡ some v
      → atoi v ≡ some (pos c)
      → c < two63
      → len (get_map st.r.job_running_list s.metadata.uid) < two63
      → (reconcile e req st).0 ≡ done x
      → len (get_map (reconcile e req st).1.r.job_running_list s.metadata.uid)
        ≤ max c (len (get_map st.r.job_running_list s.metadata.uid))
  reconcile_respects_concurrency law identity req st s w v c found unfinished listed to_run running
        given number small few h =
      let uid = s.metadata.uid in
      let st₁ : State e = record { r = st.r; s = s; w = w } in
      let (ran, own, runs, to_runs, runnings, settings) = configure_lem e req st₁ in
      let st₂ = (configure e req st₁).1 in
      let same_to_run : has st₂.r.job_to_run_list uid ≡ true =
        rw to_runs (ground (arith, get-or_made st.r.job_to_run_list uid, to_run)) in
      let same_running : get st₂.r.job_running_list uid ≡ get st.r.job_running_list uid =
        rw runnings (get-or_made st.r.job_running_list uid) in
      let same_listed : has st₂.r.run_list uid ≡ true =
        rw runs (ground (arith, get-or_made st.r.run_list uid, listed)) in
      let same : reconcile e req st ≡ progress e req st₂ =
        reached req st s w found unfinished
        ∙ bind_of_done (configure e req) (λ _. dispatch e req) st₁ ran
        ∙ dispatch_started e req st₂ (rw own (ground (arith, same_listed))) in
      let uid_same : st₂.s.metadata.uid ≡ uid = ap (λ x. x.metadata.uid) own in
      let bound =
        progress_respects_concurrency e law identity req st₂ c (rw uid_same same_to_run)
          (rw uid_same (ground (arith, same_running, running)))
          (ground (arith, settings.concurrency, given, number)) small
          (rw (uid_same, same_running) few) (rw same at h) in
      rw same (rw same_running at (rw uid_same at bound))
