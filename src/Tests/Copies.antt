-- ===== src/Tests/Copies.antt =====
-- The properties of deep copies at a concrete memory.
use mathlib.Core.Option.{some_inj}
use mathlib.Core.Path.{subst}
use sosreport_operator.Prelude.{ℕ, zero, suc, ◌≡◌, refl, some, [], ◌∷◌, arith, ◌<◌}
use sosreport_operator.GoMap.Assoc.{find}
use sosreport_operator.DeepCopy.{
  sosreport_deep_copy_object, list_deep_copy_object, spec_deep_copy, status_deep_copy,
}
use sosreport_operator.DeepCopy.Memory.{Memory, get_elem?}
use sosreport_operator.DeepCopy.Memory.Reads.{Same, View}
use sosreport_operator.DeepCopy.Memory.Returns.{Returns}
use sosreport_operator.DeepCopy.Maps.{agrees}
use sosreport_operator.DeepCopy.Objects.{
  Apart, SpecPointer, StatusPointer, SosreportPointer, ListPointer, SosreportObject, ListObject,
  sosreport_deep_copy_object-Apart, list_deep_copy_object-Apart, spec_and_status-Apart,
}
use sosreport_operator.DeepCopy.Structs.{SpecView, StatusView, SosreportView, ListView}
use sosreport_operator.Tests.Memories.{
  values, foreign, TextView, documented, a_spec, a_status, a_sosreport, a_list, cells, heap,
  spec_contents, status_contents, sosreport_contents, list_contents,
}

-- a memory with the cells above at the front
abbrev Holds : Memory values → Type 0
Holds m = Same 0 9 heap.cell m

cell_at : (m : Memory values) (a : ℕ) → Holds m → a < 9 → m a ≡ get_elem? cells a
cell_at m a same small = same a (omega arith) small

-- the elements of an array of two
two_elements :
    {A D : Type 0} (see : View values A D) (m : Memory values) (x y w : A) (d e g : D) (j : ℕ)
    → see m x d
    → see m y e
    → get_elem? (x ∷ y ∷ []) j ≡ some w
    → get_elem? (d ∷ e ∷ []) j ≡ some g
    → see m w g
unfolding get_elem?
two_elements see m x y w d e g zero p q at at' =
    subst (λ z. see m z g) (some_inj.0 at) (subst (λ z. see m x z) (some_inj.0 at') p)
two_elements see m x y w d e g (suc zero) p q at at' =
    subst (λ z. see m z g) (some_inj.0 at) (subst (λ z. see m y z) (some_inj.0 at') q)
two_elements see m x y w d e g (suc (suc j)) p q at at' = absurd (ground (arith, at))

reads_spec : (m : Memory values) → Holds m → SpecView documented m a_spec spec_contents
unfolding get_elem? agrees find
reads_spec m same = record {
  node_selector = (_, cell_at m 0 same (omega arith), (refl, λ k. refl));
  tolerations = (
    _,
    cell_at m 1 same (omega arith),
    (
      refl,
      λ j w g at at'. two_elements TextView m "all" "some" w "all" "some" g j refl refl at at',
    ),
  );
}

reads_status : (m : Memory values) → Holds m → StatusView m a_status status_contents
unfolding get_elem?
reads_status m same = record {
  finished = refl;
  in_progress = refl;
  currently_running_nodes = tt;
  outstanding_nodes = (_, cell_at m 2 same (omega arith), refl);
}

reads_sosreport :
    (m : Memory values) → Holds m → SosreportView documented m a_sosreport sosreport_contents
unfolding get_elem?
reads_sosreport m same = record {
  type_meta = refl;
  object_meta = (refl, (_, cell_at m 3 same (omega arith), refl));
  spec = reads_spec m same;
  status = reads_status m same;
}

reads_list : (m : Memory values) → Holds m → ListView documented m a_list list_contents
unfolding get_elem?
reads_list m same = record {
  type_meta = refl;
  list_meta = refl;
  items = (
    _,
    cell_at m 5 same (omega arith),
    (
      refl,
      λ j w g at at'.
          two_elements (SosreportView documented) m a_sosreport a_sosreport w sosreport_contents
            sosreport_contents g j (reads_sosreport m same) (reads_sosreport m same) at at',
    ),
  );
}

sosreport_deep_copy_object-Apart_example :
    Returns
      (Apart
        (SosreportPointer documented)
        (SosreportObject documented)
        heap
        (some 4)
        (some sosreport_contents))
      (sosreport_deep_copy_object foreign (some 4) heap)
unfolding get_elem?
sosreport_deep_copy_object-Apart_example =
    sosreport_deep_copy_object-Apart documented heap (some 4) (some sosreport_contents)
      (λ m same. (_, cell_at m 4 same (omega arith), reads_sosreport m same))

list_deep_copy_object-Apart_example :
    Returns
      (Apart (ListPointer documented) (ListObject documented) heap (some 6) (some list_contents))
      (list_deep_copy_object foreign (some 6) heap)
unfolding get_elem?
list_deep_copy_object-Apart_example =
    list_deep_copy_object-Apart documented heap (some 6) (some list_contents)
      (λ m same. (_, cell_at m 6 same (omega arith), reads_list m same))

spec_and_status-Apart_example :
    Returns
      (Apart (SpecPointer documented) (SpecPointer documented) heap (some 7) (some spec_contents))
      (spec_deep_copy foreign (some 7) heap)
    × Returns
        (Apart
          (StatusPointer documented)
          (StatusPointer documented)
          heap
          (some 8)
          (some status_contents))
        (status_deep_copy (some 8) heap)
unfolding get_elem?
spec_and_status-Apart_example =
    spec_and_status-Apart documented heap (some 7) (some 8) (some spec_contents)
      (some status_contents) (λ m same. (_, cell_at m 7 same (omega arith), reads_spec m same))
      (λ m same. (_, cell_at m 8 same (omega arith), reads_status m same))
