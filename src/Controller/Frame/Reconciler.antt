-- ===== src/Controller/Frame/Reconciler.antt =====
-- Which methods of controllers/sosreport_controller.go leave the reconciler's fields alone, whatever
-- they do to the Sosreport object.
use sosreport_operator.Prelude.{◌≡◌, refl, Option}
use sosreport_operator.Exec.{Exec}
use sosreport_operator.Exec.Rules.{Keeps, Keeps-bind, Keeps-if}
use sosreport_operator.Api.{Sosreport, NamespacedName}
use sosreport_operator.Env.{Env}
use sosreport_operator.Controller.State.{
  SosreportReconciler, State, call, get_r, get_s, set_s, return, or_crash,
}
use sosreport_operator.Controller.Run.{annotate_lists}
use sosreport_operator.Controller.Update.{refresh_sosreport, update, update_status}
use sosreport_operator.Controller.Frame.{At, At-call, At-get_r, At-get_s, At-return, At-or_crash}

-- The reconciler is `r`, whatever the Sosreport object.
pub record AtReconciler {e : Env} (r : SosreportReconciler) (st : State e) : Type 0 where
  pub reconciler : st.r ≡ r

module _ {e : Env} (r : SosreportReconciler) where
  -- what leaves both alone leaves the reconciler alone
  pub AtReconciler-At :
      {A : Type 0} (m : Exec (State e) A)
      → ((s : Sosreport) → Keeps (At {e = e} r s) m)
      → Keeps (AtReconciler {e = e} r) m
  AtReconciler-At m k = record {
    at = λ st h. record {
      reconciler =
          ((k st.s).at st (record { reconciler = h.reconciler; sosreport = refl })).reconciler;
    };
  }

  AtReconciler-set_s : (s : Sosreport) → Keeps (AtReconciler {e = e} r) (set_s s)
  unfolding set_s
  AtReconciler-set_s s = record { at = λ st h. record { reconciler = h.reconciler } }

  AtReconciler-call :
      {A : Type 0} (f : e.World → A × e.World) → Keeps (AtReconciler {e = e} r) (call e f)
  AtReconciler-call f = AtReconciler-At _ (λ s. At-call r s f)

  AtReconciler-get_s : Keeps (AtReconciler {e = e} r) get_s
  AtReconciler-get_s = AtReconciler-At _ (λ s. At-get_s r s)

  AtReconciler-get_r : Keeps (AtReconciler {e = e} r) get_r
  AtReconciler-get_r = AtReconciler-At _ (λ s. At-get_r r s)

  pub AtReconciler-return : {A : Type 0} (a : A) → Keeps (AtReconciler {e = e} r) (return a)
  AtReconciler-return a = AtReconciler-At _ (λ s. At-return r s a)

  AtReconciler-or_crash : {A : Type 0} (o : Option A) → Keeps (AtReconciler {e = e} r) (or_crash o)
  AtReconciler-or_crash o = AtReconciler-At _ (λ s. At-or_crash r s o)

  ruleset reconciler_rules = (
    AtReconciler-set_s, AtReconciler-call, AtReconciler-get_s, AtReconciler-get_r,
    AtReconciler-return, AtReconciler-or_crash, Keeps-bind, Keeps-if,
  )

  AtReconciler-refresh :
      (req : NamespacedName) → Keeps (AtReconciler {e = e} r) (refresh_sosreport e req)
  unfolding refresh_sosreport
  AtReconciler-refresh req = search reconciler_rules

  pub AtReconciler-update : (req : NamespacedName) → Keeps (AtReconciler {e = e} r) (update e req)
  unfolding update
  AtReconciler-update req = search (reconciler_rules, AtReconciler-refresh) depth 9

  pub AtReconciler-update_status :
      (req : NamespacedName) → Keeps (AtReconciler {e = e} r) (update_status e req)
  unfolding update_status
  AtReconciler-update_status req = search (reconciler_rules, AtReconciler-refresh) depth 9

  pub AtReconciler-annotate_lists :
      (req : NamespacedName) → Keeps (AtReconciler {e = e} r) (annotate_lists e req)
  unfolding annotate_lists
  AtReconciler-annotate_lists req = search (reconciler_rules, AtReconciler-update) depth 16
