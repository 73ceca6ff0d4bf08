-- ===== src/DeepCopy/Structs.antt =====
-- The contents of the structs, and the copies of them (`DeepCopyInto`).
use mathlib.Core.List.{Perm}
use sosreport_operator.Prelude.{String, ◌≡◌, refl, Option, List}
use sosreport_operator.DeepCopy.{
  Foreign, status_deep_copy_into, spec_deep_copy_into, sosreport_deep_copy_into,
  list_deep_copy_into,
}
use sosreport_operator.DeepCopy.Fields.{TextsView, deep_copy_strings-Copies}
use sosreport_operator.DeepCopy.Fields.Slices.{ElementsView, deep_copy_slice-Copies}
use sosreport_operator.DeepCopy.Maps.{MapView, deep_copy_map-Copies}
use sosreport_operator.DeepCopy.Memory.{
  Values, Memory, Ref, SpecStruct, StatusStruct, SosreportStruct, ListStruct, SpecValue,
  StatusValue, SosreportValue, ListValue,
}
use sosreport_operator.DeepCopy.Memory.Parts.{both-Copied, three-Copied}
use sosreport_operator.DeepCopy.Memory.Points.{Points}
use sosreport_operator.DeepCopy.Memory.Reads.{View, Copies}
use sosreport_operator.DeepCopy.Memory.Shapes.{
  string_map_shape, strings_shape, tolerations_shape, sosreports_shape, zero_sosreport,
}

-- The contents of a map of texts, and of a slice: `none` for nil.
abbrev pub MapContents : Type 0
MapContents = Option (String → Option String)

abbrev pub StatusContents : Type 0
StatusContents = StatusStruct (Option (List String))

-- What the documentation of the other packages' code says: each deep copy makes a copy, and a
-- `range` visits every entry once. What contents their values have is theirs to say.
pub record Documented {V : Values} (f : Foreign V) : Type 1 where
  pub ObjectContents : Type 0
  pub ObjectView : View V V.ObjectMeta ObjectContents
  pub object_meta : Copies ObjectView f.object_meta_deep_copy_into
  pub ListMetaContents : Type 0
  pub ListMetaView : View V V.ListMeta ListMetaContents
  pub list_meta : Copies ListMetaView f.list_meta_deep_copy_into
  pub TolerationContents : Type 0
  pub TolerationView : View V V.Toleration TolerationContents
  pub toleration : Copies TolerationView f.toleration_deep_copy_into
  pub range : (l : List (String × String)) → Perm (f.range_order l) l

module _ {V : Values} where
  pub record StatusView (m : Memory V) (x : StatusValue) (d : StatusContents) : Type 0 where
    pub finished : x.finished ≡ d.finished
    pub in_progress : x.in_progress ≡ d.in_progress
    pub currently_running_nodes :
        Points strings_shape TextsView m x.currently_running_nodes d.currently_running_nodes
    pub outstanding_nodes : Points strings_shape TextsView m x.outstanding_nodes d.outstanding_nodes

  pub status_deep_copy_into-Copies : Copies StatusView status_deep_copy_into
  unfolding status_deep_copy_into
  status_deep_copy_into-Copies h x d r =
      both-Copied (Points strings_shape TextsView) (Points strings_shape TextsView) StatusView
        deep_copy_strings-Copies deep_copy_strings-Copies
        (λ a b. record x { currently_running_nodes = a; outstanding_nodes = b }) h
        x.currently_running_nodes x.outstanding_nodes d.currently_running_nodes d.outstanding_nodes
        d (λ m s. (r m s).currently_running_nodes) (λ m s. (r m s).outstanding_nodes)
        (λ m a b running outstanding.
          let old = r h.cell (λ i l u. refl) in
          record {
            finished = old.finished;
            in_progress = old.in_progress;
            currently_running_nodes = running;
            outstanding_nodes = outstanding;
          })

module _ {V : Values} {f : Foreign V} (doc : Documented f) where
  abbrev pub SpecContents : Type 0
  SpecContents = SpecStruct MapContents (Option (List doc.TolerationContents))

  abbrev pub SosreportContents : Type 0
  SosreportContents = SosreportStruct V.TypeMeta doc.ObjectContents SpecContents StatusContents

  abbrev pub ListContents : Type 0
  ListContents = ListStruct V.TypeMeta doc.ListMetaContents (Option (List SosreportContents))

  abbrev TolerationsView : View V Ref (Option (List doc.TolerationContents))
  TolerationsView = Points tolerations_shape (ElementsView doc.TolerationView)

  pub record SpecView (m : Memory V) (x : SpecValue) (d : SpecContents) : Type 0 where
    pub node_selector : Points string_map_shape MapView m x.node_selector d.node_selector
    pub tolerations :
        Points tolerations_shape (ElementsView doc.TolerationView) m x.tolerations d.tolerations

  pub spec_deep_copy_into-Copies : Copies SpecView (spec_deep_copy_into f)
  unfolding spec_deep_copy_into
  spec_deep_copy_into-Copies h x d r =
      both-Copied (Points string_map_shape MapView) TolerationsView SpecView
        (deep_copy_map-Copies f doc.range)
        (deep_copy_slice-Copies tolerations_shape doc.TolerationView V.zero_toleration
          f.toleration_deep_copy_into doc.toleration)
        (λ a b. record x { node_selector = a; tolerations = b }) h x.node_selector x.tolerations
        d.node_selector d.tolerations d (λ m s. (r m s).node_selector) (λ m s. (r m s).tolerations)
        (λ m a b selector ts. record { node_selector = selector; tolerations = ts })

  pub record SosreportView (m : Memory V) (x : SosreportValue V) (d : SosreportContents)
      : Type 0 where
    pub type_meta : x.type_meta ≡ d.type_meta
    pub object_meta : doc.ObjectView m x.object_meta d.object_meta
    pub spec : SpecView m x.spec d.spec
    pub status : StatusView m x.status d.status

  pub sosreport_deep_copy_into-Copies : Copies SosreportView (sosreport_deep_copy_into f)
  unfolding sosreport_deep_copy_into
  sosreport_deep_copy_into-Copies h x d r =
      three-Copied doc.ObjectView SpecView SosreportView StatusView doc.object_meta
        spec_deep_copy_into-Copies status_deep_copy_into-Copies
        (λ a b c. record { type_meta = x.type_meta; object_meta = a; spec = b; status = c }) h
        x.object_meta x.spec x.status d.object_meta d.spec d.status d (λ m s. (r m s).object_meta)
        (λ m s. (r m s).spec) (λ m s. (r m s).status)
        (λ m a b c meta spec status. record {
          type_meta = (r h.cell (λ i l u. refl)).type_meta;
          object_meta = meta;
          spec = spec;
          status = status;
        })

  pub record ListView (m : Memory V) (x : ListValue V) (d : ListContents) : Type 0 where
    pub type_meta : x.type_meta ≡ d.type_meta
    pub list_meta : doc.ListMetaView m x.list_meta d.list_meta
    pub items : Points sosreports_shape (ElementsView SosreportView) m x.items d.items

  pub list_deep_copy_into-Copies : Copies ListView (list_deep_copy_into f)
  unfolding list_deep_copy_into
  list_deep_copy_into-Copies h x d r =
      both-Copied doc.ListMetaView (Points sosreports_shape (ElementsView SosreportView)) ListView
        doc.list_meta
        (deep_copy_slice-Copies sosreports_shape SosreportView (zero_sosreport V)
          (sosreport_deep_copy_into f) sosreport_deep_copy_into-Copies)
        (λ a b. record { type_meta = x.type_meta; list_meta = a; items = b }) h x.list_meta x.items
        d.list_meta d.items d (λ m s. (r m s).list_meta) (λ m s. (r m s).items)
        (λ m a b meta xs. record {
          type_meta = (r h.cell (λ i l u. refl)).type_meta;
          list_meta = meta;
          items = xs;
        })
