-- ===== src/DeepCopy/Memory/Points.antt =====
-- References to cells with given contents.
use mathlib.Core.Path.{subst}
use mathlib.Core.Option.{some_inj}
use sosreport_operator.Prelude.{
  ℕ, ◌+◌, ◌≤◌, ◌<◌, ◌≡◌, refl, sym, ap, ◌∙◌, Option, none, some, arith, ltb, nat_eq, if◌then◌else◌,
  Bool-cases, inl, inr,
}
use sosreport_operator.DeepCopy.Memory.{Values, Memory, Heap, Ref, Shape}
use sosreport_operator.DeepCopy.Memory.Reads.{
  Same, View, Reads, Copied, Reads-wider, Reads-later, Same-narrower, Same-trans, Same-write_below,
  Same-write_above,
}
use sosreport_operator.DeepCopy.Memory.Returns.{written, extended, cell-written}

module _ {V : Values} {A D : Type 0} (k : Shape V A) (see : View V A D) where
  -- nil has no contents; any other reference has those of its cell
  abbrev pub Points : View V Ref (Option D)
  Points m none none = Unit
  Points m none (some d) = ⊥
  Points m (some p) none = ⊥
  Points m (some p) (some d) = (x : A) × (m p ≡ some (k.wrap x)) × see m x d

  abbrev without : ℕ → Memory V → Memory V
  without p m a = if nat_eq a p then none else m a

  wrap-inj : {x y : A} → k.wrap x ≡ k.wrap y → x ≡ y
  wrap-inj {x} {y} e = ground (arith, k.same x, k.same y, ap k.read e)

  inside : (hi : ℕ) (m : Memory V) (p : ℕ) (d : D) → Reads Points 0 hi m (some p) (some d) → p < hi
  inside hi m p d r = elim (Bool-cases (ltb p hi)) [
    | inl e ↦ ground (arith, e)
    | inr e ↦
        let (x, gone, s) = r (without p m) (λ a l u. ground (arith, e, u)) in
        absurd (ground (arith, gone))
  ]

  -- what the view of a reference says of the cell
  pub Points-open :
      (hi : ℕ) (m : Memory V) (p : ℕ) (d : D)
      → Reads Points 0 hi m (some p) (some d)
      → (x : A) × (m p ≡ some (k.wrap x)) × (p < hi) × Reads see 0 hi m x d
  Points-open hi m p d r =
      let (x, e, s) = r m (λ a l u. refl) in
      let small = inside hi m p d r in
      (
        x,
        e,
        small,
        λ m' same.
            let (y, e', s') = r m' same in
            subst (λ z. see m' z d)
              (wrap-inj (some_inj.0 (sym e' ∙ same p (omega arith) small ∙ e))) s',
      )

  pub Points-close :
      (lo hi : ℕ) (m : Memory V) (p : ℕ) (x : A) (d : D)
      → lo ≤ p
      → p < hi
      → m p ≡ some (k.wrap x)
      → Reads see lo hi m x d
      → Reads Points lo hi m (some p) (some d)
  Points-close lo hi m p x d l u e r m' same = (x, same p l u ∙ e, r m' same)

  -- a reference to the first new cell, with contents in the cells after it
  pub Points-Copied :
      (h h' : Heap V) (x : A) (d : D)
      → h.next < h'.next
      → Same 0 h.next h.cell h'.cell
      → h'.cell h.next ≡ some (k.wrap x)
      → Reads see (h.next + 1) h'.next h'.cell x d
      → Copied Points h (some d) (some h.next) h'
  Points-Copied h h' x d grown kept e r = record {
    grows = omega (arith, grown);
    kept = kept;
    fresh =
        Points-close h.next h'.next h'.cell h.next x d (omega arith) grown e
          (Reads-wider see h.next h'.next (omega arith) (omega arith) r);
  }

  -- the same, where the contents were put in the cell at the end
  pub Points-written :
      (h : Heap V) (z : A) (h' : Heap V) (y : A) (d : D)
      → Copied see (extended k z h) d y h'
      → Copied Points h (some d) (some h.next) (written k h.next y h')
  Points-written h z h' y d c =
      Points-Copied h (written k h.next y h') y d (omega (arith, c.grows))
        (Same-trans (Same-write_above 0 h.next h.cell h.next (k.wrap z) (omega arith)) (
          Same-trans (Same-narrower 0 h.next (omega arith) (omega arith) c.kept)
            (Same-write_above 0 h.next h'.cell h.next (k.wrap y) (omega arith))))
        (cell-written k h.next y h')
        (Reads-later see
          (Same-write_below (h.next + 1) h'.next h'.cell h.next (k.wrap y) (omega arith)) c.fresh)
