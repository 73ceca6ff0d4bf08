-- ===== src/DeepCopy/Memory/Reads.antt =====
-- What a value in memory stands for, and which part of the memory that depends on.
use mathlib.Core.Path.{subst}
use sosreport_operator.Prelude.{ℕ, ◌≤◌, ◌<◌, ◌≡◌, arith, ◌∙◌}
use sosreport_operator.DeepCopy.Memory.{Values, Memory, Heap, Cmd, Cell, write}
use sosreport_operator.DeepCopy.Memory.Returns.{Returns}

-- The two memories are the same from `lo` up to, not including, `hi`.
abbrev pub Same : {V : Values} → ℕ → ℕ → Memory V → Memory V → Type 0
Same lo hi m m' = (a : ℕ) → lo ≤ a → a < hi → m' a ≡ m a

-- A view says which contents of type `D` a value of type `A` has in a memory.
abbrev pub View : Values → Type 0 → Type 0 → Type 1
View V A D = Memory V → A → D → Type 0

module _ {V : Values} {A D : Type 0} (see : View V A D) where
  -- `x` has the contents `d`, and only the cells from `lo` up to `hi` matter for that.
  abbrev pub Reads : ℕ → ℕ → Memory V → A → D → Type 0
  Reads lo hi m x d = (m' : Memory V) → Same lo hi m m' → see m' x d

  -- `x` is a copy of what has the contents `d`, made since the heap was `h`: it has the contents in
  -- new cells alone, and every old cell is as it was.
  pub record Copied (h : Heap V) (d : D) (x : A) (h' : Heap V) : Type 0 where
    pub grows : h.next ≤ h'.next
    pub kept : Same 0 h.next h.cell h'.cell
    pub fresh : Reads h.next h'.next h'.cell x d

  -- From every value that has contents in the allocated cells, `copy` returns a copy.
  abbrev pub Copies : (A → Cmd V A) → Type 0
  Copies copy =
      (h : Heap V) (x : A) (d : D) → Reads 0 h.next h.cell x d → Returns (Copied h d) (copy x h)

  pub Reads-wider :
      {lo hi : ℕ} {m : Memory V} {x : A} {d : D} (lo' hi' : ℕ)
      → lo' ≤ lo
      → hi ≤ hi'
      → Reads lo hi m x d
      → Reads lo' hi' m x d
  Reads-wider lo' hi' l u r m' s = r m' (λ a p q. s a (omega (arith, l, p)) (omega (arith, u, q)))

  pub Reads-later :
      {lo hi : ℕ} {m m' : Memory V} {x : A} {d : D}
      → Same lo hi m m'
      → Reads lo hi m x d
      → Reads lo hi m' x d
  Reads-later s r m'' t = r m'' (λ a p q. t a p q ∙ s a p q)

  pub Reads-equal :
      {lo hi : ℕ} {m : Memory V} {x y : A} {d e : D}
      → x ≡ y
      → d ≡ e
      → Reads lo hi m x d
      → Reads lo hi m y e
  Reads-equal {x} {e} p q r m' s = subst (λ z. see m' z e) p (subst (λ z. see m' x z) q (r m' s))

module _ {V : Values} where
  pub Same-narrower :
      {lo hi : ℕ} {m m' : Memory V} (lo' hi' : ℕ)
      → lo ≤ lo'
      → hi' ≤ hi
      → Same lo hi m m'
      → Same lo' hi' m m'
  Same-narrower lo' hi' l u s a p q = s a (omega (arith, l, p)) (omega (arith, u, q))

  pub Same-trans :
      {lo hi : ℕ} {m m' m'' : Memory V} → Same lo hi m m' → Same lo hi m' m'' → Same lo hi m m''
  Same-trans s t a p q = t a p q ∙ s a p q

  -- a write outside the range
  pub Same-write_below :
      (lo hi : ℕ) (m : Memory V) (p : ℕ) (c : Cell V) → p < lo → Same lo hi m (write m p c)
  unfolding write
  Same-write_below lo hi m p c out a l u = ground (arith, out, l)

  pub Same-write_above :
      (lo hi : ℕ) (m : Memory V) (p : ℕ) (c : Cell V) → hi ≤ p → Same lo hi m (write m p c)
  unfolding write
  Same-write_above lo hi m p c out a l u = ground (arith, out, u)
