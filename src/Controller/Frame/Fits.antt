-- ===== src/Controller/Frame/Fits.antt =====
-- What the methods of controllers/sosreport_controller.go keep of the reconciler's fields while they
-- work on one Sosreport.
use sosreport_operator.Prelude.{
  String, ◌≡◌, refl, ap, ◌∙◌, Bool, true, false, Option, none, some, if◌then◌else◌,
}
use sosreport_operator.Exec.{Exec, Outcome, done, panic, continue, ◌>>=◌}
use sosreport_operator.Exec.Rules.{Keeps}
use sosreport_operator.Api.{Sosreport, NamespacedName}
use sosreport_operator.Env.{Env, UpdateKeepsIdentity}
use sosreport_operator.Controller.State.{
  SosreportReconciler, State, call, get_r, get_s, set_r, set_s, return, or_crash, actions,
}
use sosreport_operator.Controller.Update.{update, refresh_sosreport}
use sosreport_operator.Controller.Frame.{At}

-- The reconciler has the property, and the Sosreport object this UID.
pub record Fits {e : Env} (Q : SosreportReconciler → Type 0) (uid : String) (st : State e)
    : Type 0 where
  pub reconciler : Q st.r
  pub same : st.s.metadata.uid ≡ uid

module _ {e : Env} (Q : SosreportReconciler → Type 0) (uid : String) (R : State e → Type 0) where
  -- From a state with the property, `m` leads to one with `R`, also where it panics.
  pub record Ends {A : Type 0} (m : Exec (State e) A) : Type 0 where
    pub at : (st : State e) → Fits Q uid st → R (m st).1

  pub Fits-Ends :
      {A : Type 0} (m : Exec (State e) A)
      → ((st : State e) → Fits Q uid st → R st)
      → Keeps (Fits {e = e} Q uid) m
      → Ends m
  Fits-Ends m weak k = record { at = λ st h. weak (m st).1 (k.at st h) }

  ended :
      {A B : Type 0} (rest : A → Exec (State e) B)
      → ((st : State e) → Fits Q uid st → R st)
      → ((a : A) → Ends (rest a))
      → (o : Outcome A) (st : State e) → Fits Q uid st
      → R (continue o rest st).1
  ended rest weak next (done a) st h = (next a).at st h
  ended rest weak next panic st h = weak st h

  pub Ends-bind :
      {A B : Type 0} (m : Exec (State e) A) (rest : A → Exec (State e) B)
      → ((st : State e) → Fits Q uid st → R st)
      → Keeps (Fits {e = e} Q uid) m
      → ((a : A) → Ends (rest a))
      → Ends (m >>= rest)
  unfolding ◌>>=◌
  Ends-bind m rest weak first next = record {
    at = λ st h. ended rest weak next (m st).0 (m st).1 (first.at st h);
  }

  pub Ends-if :
      {A : Type 0} (test : Bool) (m n : Exec (State e) A)
      → Ends m
      → Ends n
      → Ends (if test then m else n)
  Ends-if true m n first second = first
  Ends-if false m n first second = second

  -- what reads the reconciler goes on with one that has the property
  pub Ends-get_r :
      {A : Type 0} (rest : SosreportReconciler → Exec (State e) A)
      → ((r : SosreportReconciler) → Q r → Ends (rest r))
      → Ends (get_r >>= rest)
  unfolding actions
  Ends-get_r rest next = record { at = λ st h. (next st.r h.reconciler).at st h }

  pub Ends-get_s :
      {A : Type 0} (rest : Sosreport → Exec (State e) A)
      → ((s : Sosreport) → s.metadata.uid ≡ uid → Ends (rest s))
      → Ends (get_s >>= rest)
  unfolding actions
  Ends-get_s rest next = record { at = λ st h. (next st.s h.same).at st h }

  pub Ends-or_crash :
      {A B : Type 0} (o : Option A) (rest : A → Exec (State e) B)
      → ((st : State e) → Fits Q uid st → R st)
      → ((a : A) → o ≡ some a → Ends (rest a))
      → Ends (or_crash o >>= rest)
  unfolding actions
  Ends-or_crash none rest weak next = record { at = λ st h. weak st h }
  Ends-or_crash (some a) rest weak next = record { at = λ st h. (next a refl).at st h }

module _ {e : Env} (Q : SosreportReconciler → Type 0) (uid : String) where
  pub Ends-Fits :
      {A : Type 0} (m : Exec (State e) A)
      → Ends Q uid (Fits {e = e} Q uid) m
      → Keeps (Fits {e = e} Q uid) m
  Ends-Fits m k = record { at = λ st h. k.at st h }

  pub Fits-set_r : (r : SosreportReconciler) → Q r → Keeps (Fits {e = e} Q uid) (set_r r)
  unfolding actions
  Fits-set_r r q = record { at = λ st h. record { reconciler = q; same = h.same } }

  pub Fits-set_s : (s : Sosreport) → s.metadata.uid ≡ uid → Keeps (Fits {e = e} Q uid) (set_s s)
  unfolding actions
  Fits-set_s s own = record { at = λ st h. record { reconciler = h.reconciler; same = own } }

  pub Fits-return : {A : Type 0} (a : A) → Keeps (Fits {e = e} Q uid) (return a)
  unfolding actions
  Fits-return a = record { at = λ st h. h }

  pub Fits-call : {A : Type 0} (f : e.World → A × e.World) → Keeps (Fits {e = e} Q uid) (call e f)
  unfolding actions
  Fits-call f = record { at = λ st h. record { reconciler = h.reconciler; same = h.same } }

  -- what leaves both alone keeps this
  pub Fits-At :
      {A : Type 0} (m : Exec (State e) A)
      → ((r : SosreportReconciler) (s : Sosreport) → Keeps (At {e = e} r s) m)
      → Keeps (Fits {e = e} Q uid) m
  Fits-At m k = record {
    at = λ st h.
        let here = (k st.r st.s).at st (record { reconciler = refl; sosreport = refl }) in
        record {
          reconciler = rw here.reconciler h.reconciler;
          same = ap (λ x. x.metadata.uid) here.sosreport ∙ h.same;
        };
  }

  -- The server's answer describes the same object.
  pub Fits-update :
      UpdateKeepsIdentity e → (req : NamespacedName) → Keeps (Fits {e = e} Q uid) (update e req)
  unfolding update refresh_sosreport actions
  Fits-update identity req = record {
    at = λ st h. record { reconciler = h.reconciler; same = identity.uid st.s st.w ∙ h.same };
  }
