-- ===== src/Controller/Track/Done.antt =====
-- When isSosreportJobsDone of controllers/sosreport_controller.go holds.
use sosreport_operator.Prelude.{
  String, ◌≡◌, ◌↔◌, refl, true, false, not, ◌||◌, [], ◌∷◌, arith, eq_refl, Option-cases, inl, inr,
  nat_eq,
}
use sosreport_operator.GoMap.{GoMap, NodeSet, nil_map, made, entries, get, get_map, has, len}
use sosreport_operator.GoMap.Assoc.{find}
use sosreport_operator.GoMap.Sets.{holds}
use sosreport_operator.Controller.State.{SosreportReconciler}
use sosreport_operator.Controller.Track.{is_done}

-- no node is in the list of the Sosreport
abbrev pub IsEmpty : GoMap NodeSet → String → Type 0
IsEmpty m uid = (k : String) → holds m uid k ≡ false

pub len_zero : (m : NodeSet) → nat_eq (len m) 0 ≡ true → (k : String) → has m k ≡ false
unfolding len get entries find
len_zero nil_map h k = refl
len_zero (made []) h k = refl
len_zero (made (x ∷ l)) h k = ground arith

zero_nil : nat_eq (len {V = Unit {0}} nil_map) 0 ≡ true
unfolding len entries
zero_nil = refl

pub zero_len : (m : NodeSet) → ((k : String) → has m k ≡ false) → nat_eq (len m) 0 ≡ true
unfolding len get entries find
zero_len nil_map h = refl
zero_len (made []) h = refl
zero_len (made ((k, v) ∷ l)) h = absurd (ground (arith, h k, eq_refl k))

-- the test of one list
list_sound :
    (m : GoMap NodeSet) (uid : String)
    → (not (has m uid) || nat_eq (len (get_map m uid)) 0) ≡ true
    → IsEmpty m uid
list_sound m uid h = len_zero (get_map m uid) (elim (Option-cases (get m uid)) [
  | inl e ↦ zero_len (get_map m uid) (λ k. rw e (len_zero nil_map zero_nil k))
  | inr (names, e) ↦ ground (arith, e, h)
])

list_complete :
    (m : GoMap NodeSet) (uid : String)
    → IsEmpty m uid
    → (not (has m uid) || nat_eq (len (get_map m uid)) 0) ≡ true
list_complete m uid h = ground (arith, zero_len (get_map m uid) h)

done_sound :
    (r : SosreportReconciler) (uid : String)
    → is_done r uid ≡ true
    → IsEmpty r.job_to_run_list uid × IsEmpty r.job_running_list uid
unfolding is_done
done_sound r uid h = (
  list_sound r.job_to_run_list uid (ground arith),
  list_sound r.job_running_list uid (ground arith),
)

-- A Sosreport is done exactly when neither of its lists holds a node, whether a list is missing,
-- nil or empty.
pub is_done_iff :
    (r : SosreportReconciler) (uid : String)
    → (is_done r uid ≡ true) ↔ (IsEmpty r.job_to_run_list uid × IsEmpty r.job_running_list uid)
unfolding is_done
is_done_iff r uid = (
  done_sound r uid,
  λ h.
      ground
        (arith, list_complete r.job_to_run_list uid h.0, list_complete r.job_running_list uid h.1),
)
