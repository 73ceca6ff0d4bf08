-- ===== src/Prelude/Lists.antt =====
-- Lists measured by native numbers, membership tests of texts, and predicates over lists.
use Prim.Native.Nat.{ℕ, suc, ◌+◌}
use Prim.Native.String.{String}
use mathlib.Core.Path.{◌≡◌, refl, ap, ◌∙◌}
use mathlib.Core.Bool.{Bool, true, false, ◌||◌, Bool-set}
use mathlib.Core.List.{map, List, [], ◌∷◌, ◌++◌, Perm, Permᴰ}
use mathlib.Core.List.Permᴰ.{nil, cons, swap, trans}
use mathlib.Core.Logic.{∥∥₁_elim, ◌⊎◌, inl, inr}
use native.Mathlib.Nat.{ℕ_set}
use native.Mathlib.Omega.{arith}
use text.Mathlib.Text.{◌==◌}
use text.Mathlib.TextEquality.{eq_iff}
use text.Mathlib.TextPositions.{eq_refl}
use sosreport_operator.Prelude.Tests.{Bool-cases, if◌then◌else◌}

module _ {ℓ} {A : Type ℓ} where
  abbrev pub length : List A → ℕ
  length [] = 0
  length (x ∷ xs) = suc (length xs)

  -- Every element satisfies `P`.
  abbrev pub All : (A → Type 0) → List A → Type 0
  All P [] = Unit
  All P (x ∷ xs) = P x × All P xs

  -- Some element satisfies `P`; which one is part of the evidence.
  abbrev pub Any : (A → Type 0) → List A → Type 0
  Any P [] = ⊥
  Any P (x ∷ xs) = P x ⊎ Any P xs

  -- The elements that pass a test, in order.
  abbrev pub select : (A → Bool) → List A → List A
  select f [] = []
  select f (x ∷ xs) = let rest = select f xs in if f x then x ∷ rest else rest

module _ {ℓ} {A : Type ℓ} where
  pub length-append : (xs ys : List A) → length (xs ++ ys) ≡ length xs + length ys
  length-append [] ys = omega arith
  length-append (x ∷ xs) ys = omega (arith, length-append xs ys)

abbrev pub contains : String → List String → Bool
contains k [] = false
contains k (x ∷ xs) = x == k || contains k xs

contains-permᴰ : (k : String) {xs ys : List String} → Permᴰ xs ys → contains k xs ≡ contains k ys
contains-permᴰ k nil = refl
contains-permᴰ k (cons e p) = cc (contains-permᴰ k p, ap (λ x. x == k) e)
contains-permᴰ k (swap {a} {b} e f) = rw (← e, ← f) (ground arith)
contains-permᴰ k (trans p q) = contains-permᴰ k p ∙ contains-permᴰ k q

length-permᴰ {ℓ} : {A : Type ℓ} {xs ys : List A} → Permᴰ xs ys → length xs ≡ length ys
length-permᴰ nil = refl
length-permᴰ (cons e p) = ap suc (length-permᴰ p)
length-permᴰ (swap e f) = refl
length-permᴰ (trans p q) = length-permᴰ p ∙ length-permᴰ q

pub contains-perm : (k : String) {xs ys : List String} → Perm xs ys → contains k xs ≡ contains k ys
contains-perm k p = ∥∥₁_elim p (Bool-set _ _) (contains-permᴰ k)

pub length-perm {ℓ} : {A : Type ℓ} {xs ys : List A} → Perm xs ys → length xs ≡ length ys
length-perm p = ∥∥₁_elim p (ℕ_set _ _) length-permᴰ

pub length-map {ℓ κ} :
    {A : Type ℓ} {B : Type κ} (f : A → B) (l : List A) → length (map f l) ≡ length l
length-map f [] = refl
length-map f (x ∷ l) = omega (arith, length-map f l)

pub All-of_contains :
    (f : String → Bool) (l : List String)
    → ((k : String) → contains k l ≡ true → f k ≡ true)
    → All (λ k. f k ≡ true) l
All-of_contains f [] h = tt
All-of_contains f (x ∷ l) h =
    (h x (ground (arith, eq_refl x)), All-of_contains f l (λ k c. h k (ground (arith, c))))

pub contains_of_All :
    (f : String → Bool) (l : List String) (k : String)
    → All (λ k. f k ≡ true) l
    → contains k l ≡ true
    → f k ≡ true
contains_of_All f [] k h c = cc
contains_of_All f (x ∷ l) k h c = elim (Bool-cases (x == k)) [
  | inl e ↦ let same : x ≡ k = (eq_iff x k).0 e in rw (← same) h.0
  | inr e ↦ contains_of_All f l k h.1 (ground (arith, e))
]
