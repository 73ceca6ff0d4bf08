-- ===== src/GoMap/Laws.antt =====
-- How reads of a Go map answer after its writes.
use sosreport_operator.Prelude.{◌+◌, ◌≤◌, String, ◌≡◌, none, some, arith, ◌==◌, if◌then◌else◌}
use sosreport_operator.GoMap.{GoMap, nil_map, made, get, assign, delete, entries, len, has}
use sosreport_operator.GoMap.Assoc.{
  find-put, find-without, length-put-le, length-without-le, length-without-lt, find,
}

nil_empty :
    (V : Type 0) (k : String)
    → len (delete {V = V} nil_map k) + (if has {V = V} nil_map k then 1 else 0)
      ≤ len {V = V} nil_map
unfolding len delete get find entries
nil_empty V k = omega arith

module _ {V : Type 0} where
  pub get-assign :
      (m : GoMap V) (k : String) (v : V) {m' : GoMap V} (j : String)
      → assign m k v ≡ some m'
      → get m' j ≡ (if k == j then some v else get m j)
  unfolding get assign
  get-assign nil_map k v j h = cc
  get-assign (made l) k v j h = ground (arith, find-put k j v l)

  pub get-delete :
      (m : GoMap V) (k j : String) → get (delete m k) j ≡ (if k == j then none else get m j)
  unfolding get delete find
  get-delete nil_map k j = ground arith
  get-delete (made l) k j = find-without k j l

  pub len-assign-le :
      (m : GoMap V) (k : String) (v : V) {m' : GoMap V}
      → assign m k v ≡ some m'
      → len m' ≤ len m + 1
  unfolding len assign
  len-assign-le nil_map k v h = cc
  len-assign-le (made l) k v h = ground (arith, length-put-le k v l)

  pub len-delete-le : (m : GoMap V) (k : String) → len (delete m k) ≤ len m
  unfolding len delete
  len-delete-le nil_map k = ground arith
  len-delete-le (made l) k = length-without-le k l

  -- a deletion of what is there
  pub len-delete-lt :
      (m : GoMap V) (k : String) → len (delete m k) + (if has m k then 1 else 0) ≤ len m
  unfolding len delete get
  len-delete-lt nil_map k = nil_empty V k
  len-delete-lt (made l) k = ground (arith, length-without-lt k l)
