-- ===== src/DeepCopy/Memory/Returns.antt =====
-- Commands that return without a panic, and what holds then.
use mathlib.Core.Path.{subst}
use sosreport_operator.Prelude.{ℕ, ◌+◌, ◌≡◌, refl, sym, Option, some, arith}
use sosreport_operator.DeepCopy.Memory.{
  Values, Heap, Shape, Cmd, and_then, write, load, store, alloc,
}

pub data Returns {V : Values} {A : Type 0} (P : A → Heap V → Type 0)
    : Option (A × Heap V) → Type 0 where
  returns : {a : A} {h : Heap V} → P a h → Returns P (some (a, h))

module _ {V : Values} {A : Type 0} {P : A → Heap V → Type 0} where
  pub bind :
      {B : Type 0} {Q : B → Heap V → Type 0} {r : Option (A × Heap V)} (rest : A → Cmd V B)
      → Returns P r
      → ((a : A) (h : Heap V) → P a h → Returns Q (rest a h))
      → Returns Q (and_then r rest)
  bind rest (returns p) next = next _ _ p

  pub mono :
      {Q : A → Heap V → Type 0} {r : Option (A × Heap V)}
      → Returns P r
      → ((a : A) (h : Heap V) → P a h → Q a h)
      → Returns Q r
  mono (returns p) weaken = returns (weaken _ _ p)

-- a command whose result is known, then the rest
pub bind_of_eq :
    {V : Values} {A B : Type 0} {Q : B → Heap V → Type 0} {r : Option (A × Heap V)} {a : A}
    {h : Heap V} (rest : A → Cmd V B)
    → r ≡ some (a, h)
    → Returns Q (rest a h)
    → Returns Q (and_then r rest)
bind_of_eq {Q} rest e next = subst (λ r. Returns Q (and_then r rest)) (sym e) next

-- the heap after a cell got new contents
abbrev pub written : {V : Values} {A : Type 0} → Shape V A → ℕ → A → Heap V → Heap V
written k p a h = record { next = h.next; cell = write h.cell p (k.wrap a) }

-- the heap with one more cell
abbrev pub extended : {V : Values} {A : Type 0} → Shape V A → A → Heap V → Heap V
extended k a h = record { next = h.next + 1; cell = write h.cell h.next (k.wrap a) }

module _ {V : Values} {A : Type 0} (k : Shape V A) where
  -- a read of a cell with known contents
  pub load-of : (p : ℕ) (h : Heap V) (x : A) → h.cell p ≡ some (k.wrap x) → load k p h ≡ some (x, h)
  unfolding load
  load-of p h x e = rw (e, k.same x, load) refl

  pub store-of :
      (p : ℕ) (h : Heap V) (x a : A)
      → h.cell p ≡ some (k.wrap x)
      → store k p a h ≡ some (tt, written k p a h)
  unfolding store
  store-of p h x a e = rw (e, store) refl

  pub alloc_lem : (a : A) (h : Heap V) → alloc k a h ≡ some (h.next, extended k a h)
  unfolding alloc
  alloc_lem a h = refl

  pub cell-written : (p : ℕ) (a : A) (h : Heap V) → write h.cell p (k.wrap a) p ≡ some (k.wrap a)
  unfolding write
  cell-written p a h = ground arith
