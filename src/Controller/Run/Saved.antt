-- ===== src/Controller/Run/Saved.antt =====
-- Which annotations runSosreportJobs of controllers/sosreport_controller.go leaves.
use text.Mathlib.TextLemmas.{cons≢nil}
use sosreport_operator.Prelude.{
  String, ◌≡◌, refl, Bool, true, false, ◌||◌, Option, none, some, List, [], ◌∷◌, arith, ◌==◌, ◌∙◌,
  ap, eq_iff, eq_refl, map, Option-cases, Bool-cases, inl, inr, if◌then◌else◌,
}
use sosreport_operator.GoMap.{NodeSet, nil_map, made, get, assign, get_map, get_text, keys}
use sosreport_operator.GoMap.Laws.{get-assign}
use sosreport_operator.Json.{marshal}
use sosreport_operator.Json.Write.{print_object, sort}
use sosreport_operator.Exec.{Exec, done, ◌>>◌}
use sosreport_operator.Exec.Rules.{bind-returns}
use sosreport_operator.Api.{Sosreport, NamespacedName}
use sosreport_operator.Env.{Env, Error, UpdateKeepsIdentity, UpdateKeepsAnnotations}
use sosreport_operator.Controller.State.{SosreportReconciler, State, return, range, actions}
use sosreport_operator.Controller.Schedule.{annotate}
use sosreport_operator.Controller.Update.{update, refresh_sosreport}
use sosreport_operator.Controller.Frame.{At, At-get_env_configuration, At-range, At-start_loop}
use sosreport_operator.Controller.Config.{get_env_configuration}
use sosreport_operator.Controller.Run.{
  refresh_annotation, annotate_lists, move_started, start_loop, max_new_sosreports, run_with,
  run_sosreport_jobs,
}

print_object_text : (ks : List String) → (print_object ks == "") ≡ false
unfolding print_object
print_object_text [] = refl
print_object_text (k ∷ ks) = elim (Bool-cases (print_object (k ∷ ks) == "")) [
  | inl e ↦ absurd (cons≢nil ((eq_iff _ "").0 e))
  | inr e ↦ e
]

-- No set is written as the empty text, which a missing annotation reads as.
marshal_text : (m : NodeSet) → (marshal m == "") ≡ false
unfolding marshal
marshal_text nil_map = refl
marshal_text (made l) = print_object_text (sort (keys (made l)))

-- From `s` to `s'` the annotation `k` has become `j`, and the other annotations and the UID are the
-- same.
record Annotated (k j : String) (s s' : Sosreport) : Type 0 where
  own : get s'.metadata.annotations k ≡ some j
  others :
      (k' : String)
      → (k == k') ≡ false
      → get s'.metadata.annotations k' ≡ get s.metadata.annotations k'
  same_uid : s'.metadata.uid ≡ s.metadata.uid

-- An annotation that reads as a text that is not empty is there.
unchanged :
    (s : Sosreport) (k j : String)
    → (j == "") ≡ false
    → (get_text s.metadata.annotations k == j) ≡ true
    → get s.metadata.annotations k ≡ some j
unchanged s k j text a = elim (Option-cases (get s.metadata.annotations k)) [
  | inl e ↦ ground (arith, e, a, text, eq_iff "" j, eq_iff j "")
  | inr (v, e) ↦ ground (arith, e, a, eq_iff v j)
]

refresh_annotation-Annotated :
    (s : Sosreport) (k j : String) {b : Bool} {s' : Sosreport}
    → (j == "") ≡ false
    → refresh_annotation s k j ≡ some (b, s')
    → Annotated k j s s'
unfolding refresh_annotation annotate
refresh_annotation-Annotated s k j {b} {s'} text h =
    elim (Bool-cases (get_text s.metadata.annotations k == j)) [
      | inl a ↦
          let same : s ≡ s' = ground (arith, a, h) in
          rw (← same)
            (record { own = unchanged s k j text a; others = λ k' e. refl; same_uid = refl })
      | inr a ↦ elim (Option-cases (assign s.metadata.annotations k j)) [
        | inl c ↦ absurd (ground (arith, a, c, h))
        | inr (m, c) ↦
            let same : record s { metadata = record (s.metadata) { annotations = m } } ≡ s' =
              ground (arith, a, c, h) in
            rw (← same) (record {
              own = ground (arith, get-assign s.metadata.annotations k j k c, eq_refl k);
              others = λ k' e. ground (arith, get-assign s.metadata.annotations k j k' c);
              same_uid = refl;
            })
      ]
    ]

-- The two annotations of the Sosreport are the texts of its two lists, and it has this UID.
pub record Saved {e : Env} (uid : String) (st : State e) : Type 0 where
  pub same_uid : st.s.metadata.uid ≡ uid
  pub to_run :
      get st.s.metadata.annotations "job-to-run-list"
      ≡ some (marshal (get_map st.r.job_to_run_list uid))
  pub running :
      get st.s.metadata.annotations "job-running-list"
      ≡ some (marshal (get_map st.r.job_running_list uid))

module _ (e : Env) (identity : UpdateKeepsIdentity e) (keeps : UpdateKeepsAnnotations e) where
  -- the update of a Sosreport whose annotations are up to date
  update-Saved :
      (req : NamespacedName) (uid : String) (st : State e)
      → Saved uid st
      → Saved uid (update e req st).1
  unfolding update refresh_sosreport actions
  update-Saved req uid st saved = record {
    same_uid = identity.uid st.s st.w ∙ saved.same_uid;
    to_run = rw (keeps.annotations st.s st.w) saved.to_run;
    running = rw (keeps.annotations st.s st.w) saved.running;
  }

  update_if :
      (b : Bool) (req : NamespacedName) (uid : String) (st : State e)
      → Saved uid st
      → Saved uid ((if b then update e req else return tt) st).1
  unfolding actions
  update_if true req uid st saved = update-Saved req uid st saved
  update_if false req uid st saved = saved

  annotate_lists-Saved :
      (req : NamespacedName) (uid : String) (st : State e) {u : Unit {0}}
      → st.s.metadata.uid ≡ uid
      → (annotate_lists e req st).0 ≡ done u
      → Saved uid (annotate_lists e req st).1
  unfolding annotate_lists actions
  annotate_lists-Saved req uid st own h =
      let j = marshal (get_map st.r.job_to_run_list st.s.metadata.uid) in
      let j' = marshal (get_map st.r.job_running_list st.s.metadata.uid) in
      elim (Option-cases (refresh_annotation st.s "job-to-run-list" j)) [
        | inl a ↦ absurd (ground (arith, a, h))
        | inr ((b, s₁), a) ↦ elim (Option-cases (refresh_annotation s₁ "job-running-list" j')) [
          | inl c ↦ absurd (ground (arith, a, c, h))
          | inr ((b', s₂), c) ↦
              let first =
                refresh_annotation-Annotated st.s "job-to-run-list" j (marshal_text _) a in
              let second =
                refresh_annotation-Annotated s₁ "job-running-list" j' (marshal_text _) c in
              let saved : Saved {e = e} uid (record st { s = s₂ }) = record {
                same_uid = second.same_uid ∙ first.same_uid ∙ own;
                to_run = rw (← own) (second.others "job-to-run-list" refl ∙ first.own);
                running = rw (← own) second.own;
              } in
              rw (a) (rw c (update_if (b || b') req uid (record st { s = s₂ }) saved))
        ]
      ]

  move_started_same :
      (uid : String) (new : List String) (st : State e) → (move_started e uid new st).1.s ≡ st.s
  unfolding move_started actions
  move_started_same uid new st = ground arith

  abbrev write_lists : NamespacedName → String → List String → Exec (State e) (Bool × Option Error)
  write_lists req uid new = do move_started e uid new; annotate_lists e req; return (true, none)

  returned :
      (uid : String) (st : State e)
      → Saved uid st
      → Saved uid (return {e = e} {A = Bool × Option Error} (true, none) st).1
  unfolding return
  returned uid st saved = saved

  write_lists-Saved :
      (req : NamespacedName) (uid : String) (new : List String) (st : State e)
      {x : Bool × Option Error}
      → st.s.metadata.uid ≡ uid
      → (write_lists req uid new st).0 ≡ done x
      → Saved uid (write_lists req uid new st).1
  write_lists-Saved req uid new st own h =
      let (u, ran₁, rest₁) = bind-returns (move_started e uid new) _ st h in
      let st₁ = (move_started e uid new st).1 in
      let (v, ran₂, rest₂) =
        bind-returns {B = Bool × Option Error} (annotate_lists e req) (λ _. return (true, none)) st₁
          (rw rest₁ at h) in
      let own₁ : st₁.s.metadata.uid ≡ uid =
        ap (λ x. x.metadata.uid) (move_started_same uid new st) ∙ own in
      rw (rest₁, rest₂)
        (returned uid (annotate_lists e req st₁).1 (annotate_lists-Saved req uid st₁ own₁ ran₂))

  run_with-Saved :
      (r : SosreportReconciler) (s : Sosreport) (req : NamespacedName) (st : State e)
      {x : Bool × Option Error}
      → At r s st
      → (run_with e r s req st).0 ≡ done x
      → Saved s.metadata.uid (run_with e r s req st).1
  unfolding run_with
  run_with-Saved r s req st here h =
      let m = get_map r.job_to_run_list s.metadata.uid in
      let limit = max_new_sosreports r s.metadata.uid in
      let (environment, ran₁, rest₁) = bind-returns (get_env_configuration e req) _ st h in
      let st₁ = (get_env_configuration e req st).1 in
      let at₁ = (At-get_env_configuration r s req).at st here in
      let h₁ = rw rest₁ at h in
      let (nodes, ran₂, rest₂) = bind-returns (range m) _ st₁ h₁ in
      let st₂ = (range m st₁).1 in
      let at₂ = (At-range r s m).at st₁ at₁ in
      let h₂ = rw rest₂ at h₁ in
      let names = map (λ k. k.0) nodes in
      let (new, ran₃, rest₃) = bind-returns (start_loop e environment limit 0 [] names) _ st₂ h₂ in
      let at₃ = (At-start_loop r s environment limit 0 [] names).at st₂ at₂ in
      rw (rest₁, rest₂, rest₃)
        (write_lists-Saved req s.metadata.uid new (start_loop e environment limit 0 [] names st₂).1
          (ap (λ x. x.metadata.uid) at₃.sosreport) (rw rest₃ at h₂))

  -- A call of runSosreportJobs that returns leaves the texts of both lists in the annotations.
  pub run_sosreport_jobs-Saved :
      (req : NamespacedName) (st : State e) {x : Bool × Option Error}
      → (run_sosreport_jobs e req st).0 ≡ done x
      → Saved st.s.metadata.uid (run_sosreport_jobs e req st).1
  unfolding run_sosreport_jobs actions
  run_sosreport_jobs-Saved req st h =
      run_with-Saved st.r st.s req st (record { reconciler = refl; sosreport = refl }) h
