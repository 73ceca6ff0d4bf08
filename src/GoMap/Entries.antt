-- ===== src/GoMap/Entries.antt =====
-- The writes inside the job lists, maps from the UID of a Sosreport to a set of node names, keep the
-- entries of the outer map.
use sosreport_operator.Prelude.{String, ◌≡◌, refl, some, arith, Option-cases, inl, inr, eq_iff}
use sosreport_operator.GoMap.{
  GoMap, NodeSet, nil_map, made, entries, get, assign, delete, has, or_same, delete_in, assign_in,
  or_made,
}
use sosreport_operator.GoMap.Assoc.{find}
use sosreport_operator.GoMap.Laws.{get-assign}

pub get-or_made : {V : Type 0} (m : GoMap V) (k : String) → get (or_made m) k ≡ get m k
unfolding get entries find
get-or_made nil_map k = refl
get-or_made (made l) k = refl

replaced :
    (m : GoMap NodeSet) (u : String) (new : NodeSet) {old : NodeSet} {m' : GoMap NodeSet}
    (v : String)
    → get m u ≡ some old
    → assign m u new ≡ some m'
    → has m' v ≡ has m v
replaced m u new {old} {m'} v e h = ground (arith, e, get-assign m u new {m' = m'} v h, eq_iff u v)

pub has-delete_in : (m : GoMap NodeSet) (u n v : String) → has (delete_in m u n) v ≡ has m v
unfolding delete_in or_same
has-delete_in m u n v = elim (Option-cases (get m u)) [
  | inl e ↦ rw (e, delete_in) refl
  | inr (old, e) ↦ elim (Option-cases (assign m u (delete old n))) [
    | inl f ↦ rw (e, delete_in) (rw (f, or_same) refl)
    | inr (m', f) ↦ rw (e, delete_in) (rw (f, or_same) (replaced m u (delete old n) v e f))
  ]
]

pub has-assign_in :
    (m : GoMap NodeSet) (u n : String) {m' : GoMap NodeSet} (v : String)
    → assign_in m u n ≡ some m'
    → has m' v ≡ has m v
unfolding assign_in
has-assign_in m u n {m'} v h = elim (Option-cases (get m u)) [
  | inl e ↦ absurd (ground (arith, e, h))
  | inr (old, e) ↦ elim (Option-cases (assign old n tt)) [
    | inl f ↦ absurd (ground (arith, e, f, h))
    | inr (new, f) ↦ replaced m u new {m' = m'} v e (ground (arith, e, f, h))
  ]
]
