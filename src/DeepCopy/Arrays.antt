-- ===== src/DeepCopy/Arrays.antt =====
-- Reads and writes of arrays by index.
use sosreport_operator.Prelude.{
  ℕ, zero, suc, ◌<◌, ◌≡◌, refl, ap, some, List, [], ◌∷◌, arith, length, nat_eq, if◌then◌else◌,
}
use sosreport_operator.DeepCopy.Memory.{get_elem?, set, replicate, copy}

module _ {A : Type 0} where
  pub get_elem?-inside : (l : List A) (i : ℕ) → i < length l → (x : A) × (get_elem? l i ≡ some x)
  unfolding get_elem?
  get_elem?-inside [] i h = absurd (omega (arith, h))
  get_elem?-inside (x ∷ l) zero h = (x, refl)
  get_elem?-inside (x ∷ l) (suc i) h = get_elem?-inside l i (omega (arith, h))

  pub get_elem?-some_lt : (l : List A) (i : ℕ) (x : A) → get_elem? l i ≡ some x → i < length l
  unfolding get_elem?
  get_elem?-some_lt [] i x h = ground (arith, h)
  get_elem?-some_lt (y ∷ l) zero x h = omega arith
  get_elem?-some_lt (y ∷ l) (suc i) x h = ground (arith, get_elem?-some_lt l i x h)

  pub get_elem?-set :
      (l : List A) (i j : ℕ) (y : A)
      → i < length l
      → get_elem? (set l i y) j ≡ (if nat_eq i j then some y else get_elem? l j)
  unfolding get_elem? set
  get_elem?-set [] i j y h = absurd (omega (arith, h))
  get_elem?-set (x ∷ l) zero zero y h = refl
  get_elem?-set (x ∷ l) zero (suc j) y h = ground arith
  get_elem?-set (x ∷ l) (suc i) zero y h = ground arith
  get_elem?-set (x ∷ l) (suc i) (suc j) y h =
      ground (arith, get_elem?-set l i j y (omega (arith, h)))

  pub length-set : (l : List A) (i : ℕ) (y : A) → length (set l i y) ≡ length l
  unfolding set
  length-set [] i y = refl
  length-set (x ∷ l) zero y = refl
  length-set (x ∷ l) (suc i) y = ap suc (length-set l i y)

  pub length-replicate : (n : ℕ) (a : A) → length (replicate n a) ≡ n
  unfolding replicate
  length-replicate zero a = refl
  length-replicate (suc n) a = ap suc (length-replicate n a)

  -- a copy into an array of the same length
  pub copy_all : (dst src : List A) → length dst ≡ length src → copy dst src ≡ src
  unfolding copy
  copy_all [] [] h = refl
  copy_all [] (y ∷ src) h = absurd (omega (arith, h))
  copy_all (x ∷ dst) [] h = absurd (omega (arith, h))
  copy_all (x ∷ dst) (y ∷ src) h = ap (λ l. y ∷ l) (copy_all dst src (omega (arith, h)))
