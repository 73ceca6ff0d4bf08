-- ===== src/DeepCopy/Memory/Growth.antt =====
-- What a series of copies leaves: each finds what it reads as it was, and spares the copies before.
use sosreport_operator.Prelude.{◌≤◌, refl, arith}
use sosreport_operator.DeepCopy.Memory.{Values, Heap}
use sosreport_operator.DeepCopy.Memory.Reads.{
  Same, View, Reads, Copied, Reads-wider, Reads-later, Same-narrower, Same-trans,
}

-- A heap and a later one, with every cell of the first as it was.
pub record Grown {V : Values} (h h' : Heap V) : Type 0 where
  pub grows : h.next ≤ h'.next
  pub kept : Same 0 h.next h.cell h'.cell

module _ {V : Values} where
  pub Grown-trans : {h h' h'' : Heap V} → Grown h h' → Grown h' h'' → Grown h h''
  Grown-trans f g = record {
    grows = omega (arith, f.grows, g.grows);
    kept = Same-trans f.kept (Same-narrower 0 _ (omega arith) f.grows g.kept);
  }

  module _ {A D : Type 0} {see : View V A D} where
    pub Copied-Grown : {h h' : Heap V} {x : A} {d : D} → Copied see h d x h' → Grown h h'
    Copied-Grown c = record { grows = c.grows; kept = c.kept }

    -- a part of a larger copy: what came before and after it does not matter
    pub part-fresh :
        {h h1 h2 h3 : Heap V} {x : A} {d : D}
        → Grown h h1
        → Copied see h1 d x h2
        → Grown h2 h3
        → Reads see h.next h3.next h3.cell x d
    part-fresh f c g =
        Reads-wider see _ _ f.grows g.grows
          (Reads-later see (Same-narrower _ _ (omega arith) (omega arith) g.kept) c.fresh)

  pub Grown-refl : (h : Heap V) → Grown h h
  Grown-refl h = record { grows = omega arith; kept = λ a l u. refl }

  -- what could be read still can
  pub Reads-Grown :
      {A D : Type 0} (see : View V A D) {h h' : Heap V} {x : A} {d : D}
      → Grown h h'
      → Reads see 0 h.next h.cell x d
      → Reads see 0 h'.next h'.cell x d
  Reads-Grown see g r = Reads-wider see 0 _ (omega arith) g.grows (Reads-later see g.kept r)
