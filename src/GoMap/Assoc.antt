-- ===== src/GoMap/Assoc.antt =====
-- Association lists with text keys, which hold the entries of a Go map.
use sosreport_operator.Prelude.{
  ◌+◌, ◌≤◌, String, ◌≡◌, refl, Option, none, some, List, [], ◌∷◌, arith, ◌==◌, eq_iff, length,
  if◌then◌else◌,
}

module _ {V : Type 0} where
  unfoldable pub find : String → List (String × V) → Option V
  find k [] = none
  find k ((j, v) ∷ l) = if j == k then some v else find k l

  unfoldable pub put : String → V → List (String × V) → List (String × V)
  put k v [] = (k, v) ∷ []
  put k v ((j, w) ∷ l) = if j == k then (k, v) ∷ l else (j, w) ∷ put k v l

  unfoldable pub without : String → List (String × V) → List (String × V)
  without k [] = []
  without k ((j, v) ∷ l) = let rest = without k l in if j == k then rest else (j, v) ∷ rest

  pub find-put :
      (k j : String) (v : V) (l : List (String × V))
      → find j (put k v l) ≡ (if k == j then some v else find j l)
  unfolding find put
  find-put k j v [] = refl
  find-put k j v ((i, w) ∷ l) = ground (arith, eq_iff k j, eq_iff i k, eq_iff i j, find-put k j v l)

  pub find-without :
      (k j : String) (l : List (String × V))
      → find j (without k l) ≡ (if k == j then none else find j l)
  unfolding find without
  find-without k j [] = ground arith
  find-without k j ((i, w) ∷ l) =
      ground (arith, eq_iff k j, eq_iff i k, eq_iff i j, find-without k j l)

  pub length-put-le :
      (k : String) (v : V) (l : List (String × V)) → length (put k v l) ≤ length l + 1
  unfolding put
  length-put-le k v [] = omega arith
  length-put-le k v ((j, w) ∷ l) = ground (arith, length-put-le k v l)

  pub length-without-le : (k : String) (l : List (String × V)) → length (without k l) ≤ length l
  unfolding without
  length-without-le k [] = omega arith
  length-without-le k ((j, w) ∷ l) = ground (arith, length-without-le k l)

  pub length-without-lt :
      (k : String) (l : List (String × V))
      → length (without k l) + (elim (find k l) [ none ↦ 0 | some v ↦ 1 ]) ≤ length l
  unfolding find without
  length-without-lt k [] = omega arith
  length-without-lt k (x ∷ l) = ground (arith, length-without-lt k l, length-without-le k l)
