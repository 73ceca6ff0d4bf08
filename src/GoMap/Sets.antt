-- ===== src/GoMap/Sets.antt =====
-- How membership in the job lists answers after their writes, and membership among the keys of a
-- map. A job list is a map from the UID of a Sosreport to a set of node names.
use sosreport_operator.Prelude.{
  String, ◌≡◌, refl, Bool, not, ◌&&◌, ◌||◌, some, List, [], ◌∷◌, map, contains, arith, ◌==◌,
  Option-cases, inl, inr, eq_iff, if◌then◌else◌,
}
use sosreport_operator.GoMap.{
  GoMap, NodeSet, nil_map, made, entries, get, assign, delete, has, get_map, or_same, delete_in,
  assign_in,
}
use sosreport_operator.GoMap.Assoc.{find, put}
use sosreport_operator.GoMap.Laws.{get-assign, get-delete}

-- whether the node is in the list of the Sosreport
abbrev pub holds : GoMap NodeSet → String → String → Bool
holds m u n = has (get_map m u) n

pub has-assign :
    {V : Type 0} (m : GoMap V) (k : String) (v : V) {m' : GoMap V} (j : String)
    → assign m k v ≡ some m'
    → has m' j ≡ (k == j || has m j)
has-assign m k v j h = ground (arith, get-assign m k v j h)

pub has-delete :
    {V : Type 0} (m : GoMap V) (k j : String) → has (delete m k) j ≡ (not (k == j) && has m j)
has-delete m k j = ground (arith, get-delete m k j)

-- A map that has an entry is made.
assign_found :
    {V : Type 0} (m : GoMap V) (k : String) (v : V) {w : V}
    → get m k ≡ some w
    → (m' : GoMap V) × (assign m k v ≡ some m')
unfolding assign get find
assign_found nil_map k v h = absurd (cc)
assign_found (made l) k v h = (made (put k v l), refl)

-- Deleting in place changes the list of that one Sosreport.
pub get_map-delete_in :
    (m : GoMap NodeSet) (u n v : String)
    → get_map (delete_in m u n) v ≡ (if u == v then delete (get_map m u) n else get_map m v)
unfolding delete_in delete
get_map-delete_in m u n v = elim (Option-cases (get m u)) [
  | inl e ↦ rw (e, delete_in) (ground (arith, e, eq_iff u v))
  | inr (names, e) ↦
      let (m', a) = assign_found m u (delete names n) e in
      rw (e, delete_in) (rw (a, or_same) (ground (arith, get-assign m u (delete names n) v a)))
]

pub get_map-assign_in :
    (m : GoMap NodeSet) (u n : String) {m' : GoMap NodeSet} (v : String)
    → assign_in m u n ≡ some m'
    → (names : NodeSet) × (assign (get_map m u) n tt ≡ some names)
      × (get_map m' v ≡ (if u == v then names else get_map m v))
unfolding assign_in
get_map-assign_in m u n {m'} v h = elim (Option-cases (get m u)) [
  | inl e ↦ absurd (ground (arith, e, h))
  | inr (names, e) ↦ elim (Option-cases (assign names n tt)) [
    | inl f ↦ absurd (ground (arith, e, f, h))
    | inr (names', f) ↦ (names', rw e f, ground (arith, e, f, h, get-assign m u names' {m' = m'} v))
  ]
]

pub holds-delete_in :
    (m : GoMap NodeSet) (u n v k : String)
    → holds (delete_in m u n) v k ≡ (not (u == v && n == k) && holds m v k)
holds-delete_in m u n v k =
    rw get_map-delete_in (ground (arith, has-delete (get_map m u) n k, eq_iff u v))

pub holds-assign_in :
    (m : GoMap NodeSet) (u n : String) {m' : GoMap NodeSet} (v k : String)
    → assign_in m u n ≡ some m'
    → holds m' v k ≡ (u == v && n == k || holds m v k)
holds-assign_in m u n v k h =
    let (names, a, e) = get_map-assign_in m u n v h in
    rw e (ground (arith, has-assign (get_map m u) n tt k a, eq_iff u v))

contains-keys :
    {V : Type 0} (k : String) (l : List (String × V))
    → contains k (map (λ x. x.0) l) ≡ has (made l) k
unfolding get entries find
contains-keys k [] = refl
contains-keys k (x ∷ l) = ground (arith, contains-keys k l)

pub contains-entries :
    {V : Type 0} (k : String) (m : GoMap V) → contains k (map (λ x. x.0) (entries m)) ≡ has m k
unfolding entries get find
contains-entries k nil_map = ground arith
contains-entries k (made l) = contains-keys k l
