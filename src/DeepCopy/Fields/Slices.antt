-- ===== src/DeepCopy/Fields/Slices.antt =====
-- The loop that copies the elements of a slice (`copy_each`), and the copy of the slice.
use mathlib.Core.Path.{subst}
use sosreport_operator.Prelude.{
  ℕ, zero, suc, ◌+◌, ◌<◌, ◌≡◌, refl, sym, ap, ◌∙◌, Bool-cases, inl, inr, none, some, List, arith,
  length, nat_eq,
}
use sosreport_operator.DeepCopy.{copy_each, deep_copy_slice}
use sosreport_operator.DeepCopy.Arrays.{
  get_elem?-inside, get_elem?-some_lt, get_elem?-set, length-set, length-replicate,
}
use sosreport_operator.DeepCopy.Fields.{nil-Copied}
use sosreport_operator.DeepCopy.Memory.{
  Values, Memory, Heap, Shape, Cmd, lift, get_elem?, set, replicate,
}
use sosreport_operator.DeepCopy.Memory.Points.{Points, Points-open, Points-Copied}
use sosreport_operator.DeepCopy.Memory.Reads.{
  Same, View, Reads, Copied, Copies, Reads-wider, Reads-later, Reads-equal, Same-narrower,
  Same-trans, Same-write_below, Same-write_above,
}
use sosreport_operator.DeepCopy.Memory.Returns.{
  Returns, returns, bind, bind_of_eq, written, extended, load-of, store-of, alloc_lem, cell-written,
}

-- the contents of an array: those of its elements, in order
abbrev pub ElementsView : {V : Values} {A D : Type 0} → View V A D → View V (List A) (List D)
ElementsView see m xs ds =
    (length xs ≡ length ds)
    × ((j : ℕ) (x : _) (d : _) → get_elem? xs j ≡ some x → get_elem? ds j ≡ some d → see m x d)

-- After `i` rounds of the loop over the array at `p` that fills the new one at `b`: the elements
-- before `i` are copied into cells after `b`, and the memory below `b` is as it was in `m`.
record Filled {V : Values} {A D : Type 0} (k : Shape V (List A)) (see : View V A D) (m : Memory V)
    (p b : ℕ) (xs : List A) (ds : List D) (i : ℕ) (ys : List A) (h : Heap V) : Type 0 where
  made : b < h.next
  kept : Same 0 b m h.cell
  target : h.cell b ≡ some (k.wrap ys)
  size : length ys ≡ length xs
  copied :
      (j : ℕ) (y : A) (d : D)
      → j < i
      → get_elem? ys j ≡ some y
      → get_elem? ds j ≡ some d
      → Reads see (b + 1) h.next h.cell y d

module _ {V : Values} {A D : Type 0} (k : Shape V (List A)) (see : View V A D) (into : A → Cmd V A)
    (law : Copies see into) (m : Memory V) (p b : ℕ) (xs : List A) (ds : List D) where
  -- one more element
  Filled-step :
      (i : ℕ) (ys : List A) (h h1 : Heap V) (y : A) (d : D)
      → Filled k see m p b xs ds i ys h
      → i < length xs
      → get_elem? ds i ≡ some d
      → Copied see h d y h1
      → Filled k see m p b xs ds (i + 1) (set ys i y) (written k b (set ys i y) h1)
  Filled-step i ys h h1 y d f inside this c =
      let put = k.wrap (set ys i y) in
      let spared = λ (lo : ℕ) (l : b < lo). Same-write_below lo h1.next h1.cell b put l in
      record {
        made = omega (arith, f.made, c.grows);
        kept = Same-trans f.kept (
            Same-trans (Same-narrower 0 b (omega arith) (omega (arith, f.made)) c.kept)
              (Same-write_above 0 b h1.cell b put (omega arith)));
        target = cell-written k b (set ys i y) h1;
        size = length-set ys i y ∙ f.size;
        copied = λ j w e before at at'.
            let seen = sym (get_elem?-set ys i j y (omega (arith, inside, f.size))) ∙ at in
            elim (Bool-cases (nat_eq i j)) [
              | inl same ↦
                  Reads-equal see (ground (arith, same, seen)) (ground (arith, same, this, at')) (
                    Reads-later see (spared (b + 1) (omega arith)) (
                      Reads-wider see (b + 1) h1.next (omega (arith, f.made)) (omega arith)
                        c.fresh))
              | inr other ↦ Reads-later see (spared (b + 1) (omega arith)) (
                  Reads-wider see (b + 1) h1.next (omega arith) (omega (arith, c.grows)) (
                    Reads-later see
                      (Same-narrower (b + 1) h.next (omega arith) (omega arith) c.kept)
                      (f.copied j w e (ground (arith, before, other)) (ground (arith, seen, other))
                        at')))
            ];
      }

  copy_each-Filled :
      (source : m p ≡ some (k.wrap xs)) (small : p < b) (size : length xs ≡ length ds)
      (reads : (j : ℕ) (x : A) (d : D)
        → get_elem? xs j ≡ some x
        → get_elem? ds j ≡ some d
        → Reads see 0 b m x d)
      (n i : ℕ) (ys : List A) (h : Heap V)
      → i + n ≡ length xs
      → Filled k see m p b xs ds i ys h
      → Returns
          (λ u h'. (ys' : List A) × Filled k see m p b xs ds (length xs) ys' h')
          (copy_each k into p b n i h)
  unfolding copy_each
  copy_each-Filled source small size reads zero i ys h total f =
      returns (ys, subst (λ j. Filled k see m p b xs ds j ys h) (omega (arith, total)) f)
  copy_each-Filled source small size reads (suc n) i ys h total f =
      let (x, at) = get_elem?-inside xs i (omega (arith, total)) in
      let (d, at') = get_elem?-inside ds i (omega (arith, total, size)) in
      bind_of_eq _ (load-of k p h xs (f.kept p (omega arith) small ∙ source)) (
        bind_of_eq _ (ap (λ o. lift o h) at) (
          bind _
            (law h x d (
              Reads-wider see 0 h.next (omega arith) (omega (arith, f.made))
                (Reads-later see f.kept (reads i x d at at'))))
            (λ y h1 c.
              let there = c.kept b (omega arith) f.made ∙ f.target in
              bind_of_eq _ (load-of k b h1 ys there) (
                bind_of_eq _ (store-of k b h1 ys (set ys i y) there) (
                  copy_each-Filled source small size reads n (i + 1) (set ys i y)
                    (written k b (set ys i y) h1) (omega (arith, total))
                    (Filled-step i ys h h1 y d f (omega (arith, total)) at' c))))))

module _ {V : Values} {A D : Type 0} (k : Shape V (List A)) (see : View V A D) (z : A)
    (into : A → Cmd V A) (law : Copies see into) where
  started :
      (p : ℕ) (h : Heap V) (xs : List A) (ds : List D)
      → Filled k see h.cell p h.next xs ds 0
          (replicate (length xs) z)
          (extended k (replicate (length xs) z) h)
  started p h xs ds = record {
    made = omega arith;
    kept = Same-write_above 0 h.next h.cell h.next (k.wrap (replicate (length xs) z)) (omega arith);
    target = cell-written k h.next (replicate (length xs) z) h;
    size = length-replicate (length xs) z;
    copied = λ j y d before at at'. absurd (omega (arith, before));
  }

  finished :
      (p : ℕ) (h h' : Heap V) (xs ys : List A) (ds : List D)
      → length xs ≡ length ds
      → Filled k see h.cell p h.next xs ds (length xs) ys h'
      → Copied (Points k (ElementsView see)) h (some ds) (some h.next) h'
  finished p h h' xs ys ds size f =
      Points-Copied k (ElementsView see) h h' ys ds f.made f.kept f.target (λ m' same. (
        f.size ∙ size,
        λ j y d at at'.
            f.copied j y d (omega (arith, get_elem?-some_lt ys j y at, f.size)) at at' m' same,
      ))

  pub deep_copy_slice-Copies : Copies (Points k (ElementsView see)) (deep_copy_slice k z into)
  unfolding deep_copy_slice
  deep_copy_slice-Copies h none none r = returns (nil-Copied k (ElementsView see) h)
  deep_copy_slice-Copies h none (some ds) r = absurd (r h.cell (λ a l u. refl))
  deep_copy_slice-Copies h (some p) none r = absurd (r h.cell (λ a l u. refl))
  deep_copy_slice-Copies h (some p) (some ds) r =
      let (xs, e, small, reads) = Points-open k (ElementsView see) h.next h.cell p ds r in
      let size = (reads h.cell (λ a l u. refl)).0 in
      bind_of_eq _ (load-of k p h xs e) (
        bind_of_eq _ (alloc_lem k (replicate (length xs) z) h) (
          bind _
            (copy_each-Filled k see into law h.cell p h.next xs ds e small size
              (λ j x d at at' m' same. (reads m' same).1 j x d at at') (length xs) 0 _ _
              (omega arith) (started p h xs ds))
            (λ u h' (ys, f). returns (finished p h h' xs ys ds size f))))
