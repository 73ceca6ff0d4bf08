-- ===== src/DeepCopy/Memory/Parts.antt =====
-- Structs that are copied part by part.
use sosreport_operator.DeepCopy.Memory.{Values, Memory, Heap, Cmd, pure, and_then, ◌>>=◌}
use sosreport_operator.DeepCopy.Memory.Growth.{
  Grown-trans, Copied-Grown, Reads-Grown, part-fresh, Grown-refl,
}
use sosreport_operator.DeepCopy.Memory.Reads.{View, Reads, Copied, Copies}
use sosreport_operator.DeepCopy.Memory.Returns.{Returns, returns, bind}

module _ {V : Values} {A B C D E F : Type 0} (see_a : View V A D) (see_b : View V B E)
    (see : View V C F) where
  -- a struct of two parts
  pub both-Copied :
      {into_a : A → Cmd V A} {into_b : B → Cmd V B}
      → Copies see_a into_a
      → Copies see_b into_b
      → (make : A → B → C) (h : Heap V) (a : A) (b : B) (d : D) (e : E) (c : F)
      → Reads see_a 0 h.next h.cell a d
      → Reads see_b 0 h.next h.cell b e
      → ((m : Memory V) (x : A) (y : B) → see_a m x d → see_b m y e → see m (make x y) c)
      → Returns (Copied see h c) (and_then (into_a a h) (λ x. into_b b >>= (λ y. pure (make x y))))
  both-Copied law_a law_b make h a b d e c r s join = bind _ (law_a h a d r) (λ x h1 c1.
      let g1 = Copied-Grown c1 in
      bind _ (law_b h1 b e (Reads-Grown see_b g1 s)) (λ y h2 c2.
        let g = Grown-trans g1 (Copied-Grown c2) in
        returns (record {
          grows = g.grows;
          kept = g.kept;
          fresh = λ m t.
              join m x y (part-fresh (Grown-refl h) c1 (Copied-Grown c2) m t)
                (part-fresh g1 c2 (Grown-refl h2) m t);
        })))

  module _ {G H : Type 0} (see_g : View V G H) where
    -- a struct of three parts
    pub three-Copied :
        {into_a : A → Cmd V A} {into_b : B → Cmd V B} {into_g : G → Cmd V G}
        → Copies see_a into_a
        → Copies see_b into_b
        → Copies see_g into_g
        → (make : A → B → G → C) (h : Heap V) (a : A) (b : B) (g : G) (d : D) (e : E) (j : H)
          (c : F)
        → Reads see_a 0 h.next h.cell a d
        → Reads see_b 0 h.next h.cell b e
        → Reads see_g 0 h.next h.cell g j
        → ((m : Memory V) (x : A) (y : B) (z : G)
            → see_a m x d
            → see_b m y e
            → see_g m z j
            → see m (make x y z) c)
        → Returns
            (Copied see h c)
            (and_then (into_a a h) (λ x. into_b b >>= (λ y. into_g g >>= (λ z. pure (make x y z)))))
    three-Copied law_a law_b law_g make h a b g d e j c r s t join =
        bind _ (law_a h a d r) (λ x h1 c1.
          let g1 = Copied-Grown c1 in
          bind _ (law_b h1 b e (Reads-Grown see_b g1 s)) (λ y h2 c2.
            let g2 = Grown-trans g1 (Copied-Grown c2) in
            bind _ (law_g h2 g j (Reads-Grown see_g g2 t)) (λ z h3 c3.
              let g3 = Grown-trans g2 (Copied-Grown c3) in
              let last = Copied-Grown c3 in
              returns (record {
                grows = g3.grows;
                kept = g3.kept;
                fresh = λ m u.
                    join m x y z
                      (part-fresh (Grown-refl h) c1 (Grown-trans (Copied-Grown c2) last) m u)
                      (part-fresh g1 c2 last m u) (part-fresh g2 c3 (Grown-refl h3) m u);
              }))))
