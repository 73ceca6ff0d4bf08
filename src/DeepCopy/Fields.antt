-- ===== src/DeepCopy/Fields.antt =====
-- The copies behind one reference: of a pointer's struct (`DeepCopy`), and of a slice of texts.
pub mod Slices
use sosreport_operator.Prelude.{
  ℕ, ◌+◌, ◌≤◌, ◌<◌, String, ◌≡◌, refl, sym, ap, ◌∙◌, none, some, List, arith, length,
}
use sosreport_operator.DeepCopy.{deep_copy, deep_copy_strings}
use sosreport_operator.DeepCopy.Arrays.{length-replicate, copy_all}
use sosreport_operator.DeepCopy.Memory.{Values, Memory, Heap, Shape, Cmd, write, replicate, copy}
use sosreport_operator.DeepCopy.Memory.Points.{Points, Points-open, Points-Copied, Points-written}
use sosreport_operator.DeepCopy.Memory.Reads.{
  Same, View, Reads, Copied, Copies, Reads-wider, Reads-later, Same-narrower, Same-trans,
  Same-write_below, Same-write_above,
}
use sosreport_operator.DeepCopy.Memory.Returns.{
  Returns, returns, bind, bind_of_eq, written, extended, load-of, store-of, alloc_lem, cell-written,
}
use sosreport_operator.DeepCopy.Memory.Shapes.{strings_shape}

-- a copied nil is nil
pub nil-Copied :
    {V : Values} {A D : Type 0} (k : Shape V A) (see : View V A D) (h : Heap V)
    → Copied (Points k see) h none none h
nil-Copied k see h = record { grows = omega arith; kept = λ a l u. refl; fresh = λ m' s. tt }

module _ {V : Values} {A D : Type 0} (k : Shape V A) (see : View V A D) (z : A) (into : A → Cmd V A)
    (law : Copies see into) where
  pub deep_copy-Copies : Copies (Points k see) (deep_copy k z into)
  unfolding deep_copy
  deep_copy-Copies h none none r = returns (nil-Copied k see h)
  deep_copy-Copies h none (some d) r = absurd (r h.cell (λ a l u. refl))
  deep_copy-Copies h (some p) none r = absurd (r h.cell (λ a l u. refl))
  deep_copy-Copies h (some p) (some d) r =
      let (x, e, small, reads) = Points-open k see h.next h.cell p d r in
      let h1 = extended k z h in
      let old = Same-write_above 0 h.next h.cell h.next (k.wrap z) (omega arith) in
      bind_of_eq _ (alloc_lem k z h) (
        bind_of_eq _ (load-of k p h1 x (old p (omega arith) small ∙ e)) (
          bind _
            (law h1 x d
              (Reads-wider see 0 h1.next (omega arith) (omega arith) (Reads-later see old reads)))
            (λ y h2 c.
              bind_of_eq _
                (store-of k h.next h2 z y
                  (c.kept h.next (omega arith) (omega arith) ∙ cell-written k h.next z h))
                (returns (Points-written k see h z h2 y d c)))))

-- the contents of an array of texts: the array itself
abbrev pub TextsView : {V : Values} → View V (List String) (List String)
TextsView m xs ds = xs ≡ ds

pub deep_copy_strings-Copies :
    {V : Values} → Copies (Points (strings_shape {V = V}) TextsView) deep_copy_strings
unfolding deep_copy_strings
deep_copy_strings-Copies h none none r = returns (nil-Copied strings_shape TextsView h)
deep_copy_strings-Copies h none (some d) r = absurd (r h.cell (λ a l u. refl))
deep_copy_strings-Copies h (some p) none r = absurd (r h.cell (λ a l u. refl))
deep_copy_strings-Copies {V} h (some p) (some ds) r =
    let (xs, e, small, reads) = Points-open strings_shape TextsView h.next h.cell p ds r in
    let made = replicate (length xs) "" in
    let h1 = extended {V = V} strings_shape made h in
    let full = copy_all made xs (length-replicate (length xs) "") in
    bind_of_eq _ (load-of strings_shape p h xs e) (
      bind_of_eq _ (alloc_lem strings_shape made h) (
        bind_of_eq _
          (load-of strings_shape h.next h1 made (cell-written strings_shape h.next made h))
          (bind_of_eq _
            (store-of strings_shape h.next h1 made (copy made xs)
              (cell-written strings_shape h.next made h))
            (returns (
              Points-written strings_shape TextsView h made h1 (copy made xs) ds (record {
                grows = omega arith;
                kept = λ a l u. refl;
                fresh = λ m' same. full ∙ reads h.cell (λ a l u. refl);
              }))))))
