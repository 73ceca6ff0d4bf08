-- ===== src/Controller/Lifecycle/Conclude.antt =====
-- The end of Reconcile of controllers/sosreport_controller.go when both lists are empty.
use sosreport_operator.Prelude.{
  String, ◌≡◌, ◌↔◌, ◌⊎◌, inl, inr, refl, sym, ◌∙◌, Bool, true, false, not, ◌&&◌, ◌||◌, Option, none,
  List, arith,
}
use sosreport_operator.GoMap.{GoMap, NodeSet, nil_map, made, entries, get, has}
use sosreport_operator.GoMap.Assoc.{find}
use sosreport_operator.Exec.{done, ◌>>◌}
use sosreport_operator.Exec.Rules.{bind_of_done}
use sosreport_operator.Api.{Sosreport, NamespacedName}
use sosreport_operator.Env.{Env, Error}
use sosreport_operator.Controller.State.{State, return, actions}
use sosreport_operator.Controller.Update.{update_status, refresh_sosreport}
use sosreport_operator.Controller.Track.Done.{IsEmpty, is_done_iff}
use sosreport_operator.Controller.Reconcile.{conclude, settle}
use sosreport_operator.Controller.Reconcile.Branches.{settle_lem}

-- A map of lists that has an entry is made.
pub made_of_has :
    (m : GoMap NodeSet) (k : String) → has m k ≡ true → (l : List (String × NodeSet)) × (m ≡ made l)
unfolding get entries find
made_of_has nil_map k h = absurd (cc)
made_of_has (made l) k h = (l, refl)

-- The status that was sent to the server says that the Sosreport is finished.
pub record SentFinished {e : Env} (st : State e) : Type 0 where
  pub sent : Sosreport
  pub sent_at : e.World
  pub answered : st.s ≡ (e.update_status sent sent_at).0.1
  pub finished : sent.status.finished ≡ true
  pub in_progress : sent.status.in_progress ≡ false

finished_iff :
    {a b f : Bool} {P : Type 0} → (a ≡ true) ↔ P → f ≡ (a || b) → (f ≡ true) ↔ (P ⊎ (b ≡ true))
finished_iff {a = true} i h = ((λ k. inl (i.0 refl)), (λ k. h))
finished_iff {a = false} i h = (
  (λ k. inr (sym h ∙ k)),
  (λ k. elim k [ inl p ↦ absurd (ground (arith, i.1 p)) | inr b ↦ h ∙ b ]),
)

in_progress_iff :
    {a b f : Bool} {P : Type 0}
    → (a ≡ true) ↔ P
    → f ≡ (not a && b)
    → (f ≡ true) ↔ ((b ≡ true) × ¬ P)
in_progress_iff {a = true} i h =
    ((λ k. absurd (ground (arith, h, k))), (λ k. absurd (k.1 (i.0 refl))))
in_progress_iff {a = false} i h = ((λ k. (sym h ∙ k, (λ p. ground (arith, i.1 p)))), (λ k. h ∙ k.0))

module _ (e : Env) (req : NamespacedName) where
  -- The end of the branch for started Sosreports returns and leaves the reconciler alone: afterwards
  -- the status says Finished exactly if neither list of the Sosreport holds a node or it said so
  -- before, and it says InProgress exactly if it said so before and one of the lists holds a node.
  pub settle_iff :
      (st : State e)
      → ((settle e st).0 ≡ done tt)
        × ((settle e st).1.r ≡ st.r)
        × (((settle e st).1.s.status.finished ≡ true) ↔ (
            (IsEmpty st.r.job_to_run_list st.s.metadata.uid
              × IsEmpty st.r.job_running_list st.s.metadata.uid)
            ⊎ (st.s.status.finished ≡ true)))
        × (((settle e st).1.s.status.in_progress ≡ true) ↔ (
            (st.s.status.in_progress ≡ true)
            × ¬ (
                IsEmpty st.r.job_to_run_list st.s.metadata.uid
                × IsEmpty st.r.job_running_list st.s.metadata.uid)))
  settle_iff st =
      let (ran, kept, fin, inp) = settle_lem e req st in
      let empty = is_done_iff st.r st.s.metadata.uid in
      (ran, kept, finished_iff empty fin, in_progress_iff empty inp)

  pub conclude_returns :
      (st : State e) → ((conclude e req st).0 ≡ done none) × ((conclude e req st).1.r ≡ st.r)
  unfolding conclude update_status refresh_sosreport actions
  conclude_returns st =
      let (ran, kept, fin, inp) = settle_lem e req st in
      let eq =
        bind_of_done (settle e) (λ u. update_status e req >> return {e = e} {A = Option Error} none)
          st ran in
      rw eq (refl, kept)

  pub conclude_finished :
      (st : State e)
      → IsEmpty st.r.job_to_run_list st.s.metadata.uid
      → IsEmpty st.r.job_running_list st.s.metadata.uid
      → ((conclude e req st).0 ≡ done none)
        × ((conclude e req st).1.r ≡ st.r)
        × SentFinished (conclude e req st).1
  unfolding conclude update_status refresh_sosreport actions
  conclude_finished st empty empty' =
      let (ran, kept, fin, inp) = settle_lem e req st in
      let st₁ = (settle e st).1 in
      let done' = (is_done_iff st.r st.s.metadata.uid).1 (empty, empty') in
      let eq =
        bind_of_done (settle e) (λ u. update_status e req >> return {e = e} {A = Option Error} none)
          st ran in
      rw eq (
        refl,
        kept,
        record {
          sent = st₁.s;
          sent_at = st₁.w;
          answered = refl;
          finished = ground (arith, fin, done');
          in_progress = ground (arith, inp, done');
        },
      )
