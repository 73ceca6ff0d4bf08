-- ===== src/Json/RoundTrip.antt =====
-- What encoding/json writes for a `map[string]struct{}` it reads back, for every set of keys.
use sosreport_operator.Prelude.{
  String, ◌≡◌, refl, false, ◌||◌, some, List, [], ◌∷◌, arith, ◌==◌, contains,
}
use sosreport_operator.GoMap.{NodeSet, nil_map, made, entries, get, has, keys, assign}
use sosreport_operator.GoMap.Assoc.{find, put}
use sosreport_operator.GoMap.Sets.{contains-entries, has-assign}
use sosreport_operator.Json.{marshal, unmarshal}
use sosreport_operator.Json.Write.{insert, sort}
use sosreport_operator.Json.Read.Document.{filled, read_document-print_object}

contains-insert :
    (k j : String) (l : List String) → contains k (insert j l) ≡ (j == k || contains k l)
unfolding insert
contains-insert k j [] = refl
contains-insert k j (x ∷ l) = ground (arith, contains-insert k j l)

contains-sort : (k : String) (l : List String) → contains k (sort l) ≡ contains k l
unfolding sort
contains-sort k [] = refl
contains-sort k (x ∷ l) = ground (arith, contains-insert k x (sort l), contains-sort k l)

has-filled :
    (k : String) (ks : List String) (l : List (String × Unit {0}))
    → has (made (filled ks l)) k ≡ (contains k ks || has (made l) k)
unfolding assign
has-filled k [] l = refl
has-filled k (j ∷ ks) l =
    ground (
      arith,
      has-filled k ks (put j tt l),
      has-assign (made l) j tt {m' = made (put j tt l)} k refl,
    )

-- the two maps hold the same names
abbrev pub SameNames : NodeSet → NodeSet → Type 0
SameNames m m' = (k : String) → has m' k ≡ has m k

empty : (k : String) → has {V = Unit {0}} (made []) k ≡ false
unfolding get find entries
empty k = refl

-- Whatever the names, the text that is written for a set of them can be read, and gives a set of the
-- same names.
pub unmarshal-marshal :
    (m : NodeSet) → (m' : NodeSet) × (unmarshal (marshal m) ≡ some m') × SameNames m m'
unfolding unmarshal marshal keys
unmarshal-marshal nil_map = (nil_map, refl, λ k. refl)
unmarshal-marshal (made l) =
    let ks = sort (keys (made l)) in
    (
      made (filled ks []),
      read_document-print_object ks,
      λ k. ground (
        arith,
        has-filled k ks [],
        contains-sort k (keys (made l)),
        contains-entries k (made l),
        empty k,
      ),
    )
