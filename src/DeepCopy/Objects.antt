-- ===== src/DeepCopy/Objects.antt =====
-- The copies of whole resources (`DeepCopy` and `DeepCopyObject`), and that they stand apart from
-- their originals.
use sosreport_operator.Prelude.{refl, Option, none, some}
use sosreport_operator.DeepCopy.{
  Foreign, Object, nil_object, of_sosreport, of_list, status_deep_copy_into, status_deep_copy,
  spec_deep_copy_into, spec_deep_copy, sosreport_deep_copy_into, sosreport_deep_copy,
  list_deep_copy_into, list_deep_copy, sosreport_deep_copy_object, list_deep_copy_object,
}
use sosreport_operator.DeepCopy.Fields.{deep_copy-Copies}
use sosreport_operator.DeepCopy.Memory.{Values, Heap, Ref}
use sosreport_operator.DeepCopy.Memory.Points.{Points}
use sosreport_operator.DeepCopy.Memory.Reads.{Same, View, Reads, Copied, Copies, Reads-later}
use sosreport_operator.DeepCopy.Memory.Returns.{Returns, returns, bind, mono}
use sosreport_operator.DeepCopy.Memory.Shapes.{
  zero_spec, zero_status, zero_sosreport, zero_list, spec_shape, status_shape, sosreport_shape,
  list_shape,
}
use sosreport_operator.DeepCopy.Structs.{
  Documented, StatusContents, StatusView, status_deep_copy_into-Copies, SpecContents,
  SosreportContents, ListContents, SpecView, spec_deep_copy_into-Copies, SosreportView,
  sosreport_deep_copy_into-Copies, ListView, list_deep_copy_into-Copies,
}

-- After the copy of `p`, which has the contents `d` in `h`: every cell of `h` is as it was, the
-- original has its contents whatever is written to new cells, and the copy `o` has the same
-- contents whatever is written to old ones.
pub record Apart {V : Values} {O D : Type 0} (see : View V Ref D) (see_copy : View V O D)
    (h : Heap V) (p : Ref) (d : D) (o : O) (h' : Heap V) : Type 0 where
  pub unchanged : Same 0 h.next h.cell h'.cell
  pub original : Reads see 0 h.next h'.cell p d
  pub copy : Reads see_copy h.next h'.next h'.cell o d

module _ {V : Values} {O D : Type 0} (see : View V Ref D) (see_copy : View V O D) where
  Apart-of :
      (h h' : Heap V) (p : Ref) (d : D) (o : O)
      → Reads see 0 h.next h.cell p d
      → Copied see_copy h d o h'
      → Apart see see_copy h p d o h'
  Apart-of h h' p d o r c = record {
    unchanged = c.kept;
    original = Reads-later see c.kept r;
    copy = c.fresh;
  }

module _ {V : Values} {f : Foreign V} (doc : Documented f) where
  abbrev pub StatusPointer : View V Ref (Option StatusContents)
  StatusPointer = Points status_shape StatusView

  abbrev pub SpecPointer : View V Ref (Option (SpecContents doc))
  SpecPointer = Points spec_shape (SpecView doc)

  abbrev pub SosreportPointer : View V Ref (Option (SosreportContents doc))
  SosreportPointer = Points sosreport_shape (SosreportView doc)

  abbrev pub ListPointer : View V Ref (Option (ListContents doc))
  ListPointer = Points list_shape (ListView doc)

  -- what an interface holds: a nil one nothing, and no interface holds a nil pointer
  abbrev pub SosreportObject : View V Object (Option (SosreportContents doc))
  SosreportObject m nil_object none = Unit
  SosreportObject m (of_sosreport (some p)) d = SosreportPointer m (some p) d
  SosreportObject m _ _ = ⊥

  abbrev pub ListObject : View V Object (Option (ListContents doc))
  ListObject m nil_object none = Unit
  ListObject m (of_list (some p)) d = ListPointer m (some p) d
  ListObject m _ _ = ⊥

  status_deep_copy-Copies : Copies StatusPointer status_deep_copy
  unfolding status_deep_copy
  status_deep_copy-Copies =
      deep_copy-Copies status_shape StatusView zero_status status_deep_copy_into
        status_deep_copy_into-Copies

  spec_deep_copy-Copies : Copies SpecPointer (spec_deep_copy f)
  unfolding spec_deep_copy
  spec_deep_copy-Copies =
      deep_copy-Copies spec_shape (SpecView doc) zero_spec (spec_deep_copy_into f)
        (spec_deep_copy_into-Copies doc)

  sosreport_deep_copy-Copies : Copies SosreportPointer (sosreport_deep_copy f)
  unfolding sosreport_deep_copy
  sosreport_deep_copy-Copies =
      deep_copy-Copies sosreport_shape (SosreportView doc) (zero_sosreport V)
        (sosreport_deep_copy_into f) (sosreport_deep_copy_into-Copies doc)

  list_deep_copy-Copies : Copies ListPointer (list_deep_copy f)
  unfolding list_deep_copy
  list_deep_copy-Copies =
      deep_copy-Copies list_shape (ListView doc) (zero_list V) (list_deep_copy_into f)
        (list_deep_copy_into-Copies doc)

  sosreport_object :
      (h h' : Heap V) (c : Ref) (d : Option (SosreportContents doc))
      → Copied SosreportPointer h d c h'
      → Copied SosreportObject h d
          (elim c [ none ↦ nil_object | some a ↦ of_sosreport (some a) ])
          h'
  sosreport_object h h' none none c = record { grows = c.grows; kept = c.kept; fresh = c.fresh }
  sosreport_object h h' none (some d) c = absurd (c.fresh h'.cell (λ a l u. refl))
  sosreport_object h h' (some a) d c = record { grows = c.grows; kept = c.kept; fresh = c.fresh }

  list_object :
      (h h' : Heap V) (c : Ref) (d : Option (ListContents doc))
      → Copied ListPointer h d c h'
      → Copied ListObject h d (elim c [ none ↦ nil_object | some a ↦ of_list (some a) ]) h'
  list_object h h' none none c = record { grows = c.grows; kept = c.kept; fresh = c.fresh }
  list_object h h' none (some d) c = absurd (c.fresh h'.cell (λ a l u. refl))
  list_object h h' (some a) d c = record { grows = c.grows; kept = c.kept; fresh = c.fresh }

  -- DeepCopyObject of a pointer to a Sosreport that can be read, or of nil, returns. The object it
  -- returns has the same contents in new cells alone and is the nil interface exactly for nil, no
  -- old cell is changed, and the original has its contents whatever is written to the new cells;
  -- if the deep copies of other packages make such copies and a range visits every entry once.
  pub sosreport_deep_copy_object-Apart :
      (h : Heap V) (p : Ref) (d : Option (SosreportContents doc))
      → Reads SosreportPointer 0 h.next h.cell p d
      → Returns (Apart SosreportPointer SosreportObject h p d) (sosreport_deep_copy_object f p h)
  unfolding sosreport_deep_copy_object
  sosreport_deep_copy_object-Apart h p d r =
      bind _ (sosreport_deep_copy-Copies h p d r) (λ c h' copied.
        returns (
          Apart-of SosreportPointer SosreportObject h h' p d _ r
            (sosreport_object h h' c d copied)))

  -- DeepCopyObject of a pointer to a SosreportList that can be read, or of nil, returns. The object
  -- it returns has the same contents, with all the Sosreports of the list in order, in new cells
  -- alone and is the nil interface exactly for nil, no old cell is changed, and the original has
  -- its contents whatever is written to the new cells; if the deep copies of other packages make
  -- such copies and a range visits every entry once.
  pub list_deep_copy_object-Apart :
      (h : Heap V) (p : Ref) (d : Option (ListContents doc))
      → Reads ListPointer 0 h.next h.cell p d
      → Returns (Apart ListPointer ListObject h p d) (list_deep_copy_object f p h)
  unfolding list_deep_copy_object
  list_deep_copy_object-Apart h p d r = bind _ (list_deep_copy-Copies h p d r) (λ c h' copied.
      returns (Apart-of ListPointer ListObject h h' p d _ r (list_object h h' c d copied)))

  -- DeepCopy of a pointer to a SosreportSpec or a SosreportStatus that can be read, or of nil,
  -- returns. The pointer it returns has the same contents in new cells alone, where a nil slice or
  -- map stays nil, no old cell is changed, and the original has its contents whatever is written
  -- to the new cells; if the deep copy of a Toleration makes such a copy and a range visits every
  -- entry once.
  pub spec_and_status-Apart :
      (h : Heap V) (p q : Ref) (d : Option (SpecContents doc)) (e : Option StatusContents)
      → Reads SpecPointer 0 h.next h.cell p d
      → Reads StatusPointer 0 h.next h.cell q e
      → Returns (Apart SpecPointer SpecPointer h p d) (spec_deep_copy f p h)
        × Returns (Apart StatusPointer StatusPointer h q e) (status_deep_copy q h)
  spec_and_status-Apart h p q d e r s = (
    mono (spec_deep_copy-Copies h p d r)
        (λ c h' copied. Apart-of SpecPointer SpecPointer h h' p d c r copied),
    mono (status_deep_copy-Copies h q e s)
        (λ c h' copied. Apart-of StatusPointer StatusPointer h h' q e c s copied),
  )
