-- ===== src/DeepCopy.antt =====
-- The deep copies of api/v1alpha1/zz_generated.deepcopy.go. A `deep_copy_into` returns the struct
-- that the code writes to `*out`, from the struct in `*in`; `*out = *in` gives it the fields that
-- nothing replaces. The code of other packages is `Foreign`.
pub mod Memory
pub mod Arrays
pub mod Maps
pub mod Fields
pub mod Structs
pub mod Objects
use sosreport_operator.Prelude.{
  ℕ, zero, suc, ◌+◌, String, Option, none, some, List, [], ◌∷◌, length,
}
use sosreport_operator.GoMap.Assoc.{put}
use Memory.{
  Values, Ref, SpecValue, StatusValue, SosreportValue, ListValue, Shape, Cmd, pure, lift, load,
  store, alloc, ◌>>=◌, ◌>>◌, get_elem?, set, replicate, copy,
}
use Memory.Shapes.{
  zero_spec, zero_status, zero_sosreport, zero_list, string_map_shape, strings_shape,
  tolerations_shape, sosreports_shape, spec_shape, status_shape, sosreport_shape, list_shape,
}

-- The deep copies of metav1.ObjectMeta, metav1.ListMeta and corev1.Toleration, and the order in
-- which a `range` visits the entries of a map.
pub record Foreign (V : Values) : Type 0 where
  pub object_meta_deep_copy_into : V.ObjectMeta → Cmd V V.ObjectMeta
  pub list_meta_deep_copy_into : V.ListMeta → Cmd V V.ListMeta
  pub toleration_deep_copy_into : V.Toleration → Cmd V V.Toleration
  pub range_order : List (String × String) → List (String × String)

-- `runtime.Object`: a nil interface, or a pointer with its type
pub data Object : Type 0 where
  nil_object : Object
  of_sosreport : Ref → Object
  of_list : Ref → Object

module _ {V : Values} where
  -- `if in == nil { return nil }; out := new(T); in.DeepCopyInto(out); return out`
  unfoldable pub deep_copy : {A : Type 0} → Shape V A → A → (A → Cmd V A) → Ref → Cmd V Ref
  deep_copy k z into none = pure none
  deep_copy k z into (some p) = do
    out ← alloc k z
    x ← load k p
    y ← into x
    store k out y
    pure (some out)

  -- the loop over the entries of a map, which assigns each to the map at `out`
  unfoldable pub fill : ℕ → List (String × String) → Cmd V (Unit {0})
  fill out [] = pure tt
  fill out ((key, val) ∷ rest) = do
    m ← load string_map_shape out
    store string_map_shape out (put key val m)
    fill out rest

  -- the loop over the indices from `i` of the array at `in_`, `n` of them, which copies each element
  -- to the array at `out`
  unfoldable pub copy_each :
      {A : Type 0} → Shape V (List A) → (A → Cmd V A) → (in_ out n i : ℕ) → Cmd V (Unit {0})
  copy_each k into in_ out zero i = pure tt
  copy_each k into in_ out (suc n) i = do
    xs ← load k in_
    x ← lift (get_elem? xs i)
    y ← into x
    ys ← load k out
    store k out (set ys i y)
    copy_each k into in_ out n (i + 1)

  -- a field that is a slice of structs
  unfoldable pub deep_copy_slice :
      {A : Type 0} → Shape V (List A) → A → (A → Cmd V A) → Ref → Cmd V Ref
  unfolding copy_each
  deep_copy_slice k z into none = pure none
  deep_copy_slice k z into (some p) = do
    xs ← load k p
    out ← alloc k (replicate (length xs) z)
    copy_each k into p out (length xs) 0
    pure (some out)

  -- a field that is a slice of texts
  unfoldable pub deep_copy_strings : Ref → Cmd V Ref
  deep_copy_strings none = pure none
  deep_copy_strings (some p) = do
    xs ← load strings_shape p
    out ← alloc strings_shape (replicate (length xs) "")
    ys ← load strings_shape out
    store strings_shape out (copy ys xs)
    pure (some out)

  -- `(*SosreportStatus).DeepCopyInto`
  unfoldable pub status_deep_copy_into : StatusValue → Cmd V StatusValue
  unfolding deep_copy_strings
  status_deep_copy_into x = do
    running ← deep_copy_strings x.currently_running_nodes
    outstanding ← deep_copy_strings x.outstanding_nodes
    pure (record x { currently_running_nodes = running; outstanding_nodes = outstanding })

  unfoldable pub status_deep_copy : Ref → Cmd V Ref
  unfolding deep_copy status_deep_copy_into
  status_deep_copy = deep_copy status_shape zero_status status_deep_copy_into

module _ {V : Values} (f : Foreign V) where
  -- a field that is a map of texts
  unfoldable pub deep_copy_map : Ref → Cmd V Ref
  unfolding fill
  deep_copy_map none = pure none
  deep_copy_map (some p) = do
    out ← alloc string_map_shape []
    l ← load string_map_shape p
    fill out (f.range_order l)
    pure (some out)

  -- `(*SosreportSpec).DeepCopyInto`
  unfoldable pub spec_deep_copy_into : SpecValue → Cmd V SpecValue
  unfolding deep_copy_map deep_copy_slice
  spec_deep_copy_into x = do
    selector ← deep_copy_map x.node_selector
    ts ←
        deep_copy_slice tolerations_shape V.zero_toleration f.toleration_deep_copy_into
          x.tolerations
    pure (record x { node_selector = selector; tolerations = ts })

  unfoldable pub spec_deep_copy : Ref → Cmd V Ref
  unfolding deep_copy spec_deep_copy_into
  spec_deep_copy = deep_copy spec_shape zero_spec spec_deep_copy_into

  -- `(*Sosreport).DeepCopyInto`
  unfoldable pub sosreport_deep_copy_into : SosreportValue V → Cmd V (SosreportValue V)
  unfolding spec_deep_copy_into status_deep_copy_into
  sosreport_deep_copy_into x = do
    meta ← f.object_meta_deep_copy_into x.object_meta
    s ← spec_deep_copy_into x.spec
    u ← status_deep_copy_into x.status
    pure (record { type_meta = x.type_meta; object_meta = meta; spec = s; status = u })

  unfoldable pub sosreport_deep_copy : Ref → Cmd V Ref
  unfolding deep_copy sosreport_deep_copy_into
  sosreport_deep_copy = deep_copy sosreport_shape (zero_sosreport V) sosreport_deep_copy_into

  -- `(*SosreportList).DeepCopyInto`
  unfoldable pub list_deep_copy_into : ListValue V → Cmd V (ListValue V)
  unfolding deep_copy_slice sosreport_deep_copy_into
  list_deep_copy_into x = do
    meta ← f.list_meta_deep_copy_into x.list_meta
    xs ← deep_copy_slice sosreports_shape (zero_sosreport V) sosreport_deep_copy_into x.items
    pure (record { type_meta = x.type_meta; list_meta = meta; items = xs })

  unfoldable pub list_deep_copy : Ref → Cmd V Ref
  unfolding deep_copy list_deep_copy_into
  list_deep_copy = deep_copy list_shape (zero_list V) list_deep_copy_into

  -- `(*Sosreport).DeepCopyObject`: no nil pointer becomes an interface
  unfoldable pub sosreport_deep_copy_object : Ref → Cmd V Object
  unfolding sosreport_deep_copy
  sosreport_deep_copy_object p = do
    c ← sosreport_deep_copy p
    pure (elim c [ none ↦ nil_object | some a ↦ of_sosreport (some a) ])

  -- `(*SosreportList).DeepCopyObject`
  unfoldable pub list_deep_copy_object : Ref → Cmd V Object
  unfolding list_deep_copy
  list_deep_copy_object p = do
    c ← list_deep_copy p
    pure (elim c [ none ↦ nil_object | some a ↦ of_list (some a) ])
