-- ===== src/Tests/Memories.antt =====
-- A concrete memory for deep copies: a Sosreport whose node selector, tolerations, node lists and
-- annotations stand in cells of their own, and a list with that Sosreport and an empty one.
use mathlib.Core.List.Perm
use sosreport_operator.Prelude.{
  String, ◌≡◌, refl, true, false, Option, none, some, List, [], ◌∷◌, arith,
}
use sosreport_operator.GoMap.Assoc.{find}
use sosreport_operator.DeepCopy.{Foreign, deep_copy_strings}
use sosreport_operator.DeepCopy.Fields.{TextsView, deep_copy_strings-Copies}
use sosreport_operator.DeepCopy.Memory.{
  Values, Heap, Ref, SpecValue, StatusValue, SosreportValue, ListValue, Cell, pure, ◌>>=◌,
  get_elem?, string_map, strings, tolerations, sosreports, spec, status, sosreport, list,
}
use sosreport_operator.DeepCopy.Memory.Points.{Points}
use sosreport_operator.DeepCopy.Memory.Reads.{View, Copies}
use sosreport_operator.DeepCopy.Memory.Returns.{returns, bind}
use sosreport_operator.DeepCopy.Memory.Shapes.{strings_shape}
use sosreport_operator.DeepCopy.Structs.{
  Documented, StatusContents, SpecContents, SosreportContents, ListContents,
}

-- metadata with a name and a list of finalizers
abbrev pub values : Values
values = record {
  TypeMeta = String;
  ObjectMeta = String × Ref;
  ListMeta = String;
  Toleration = String;
  Other = Unit;
  zero_type_meta = "";
  zero_object_meta = ("", none);
  zero_list_meta = "";
  zero_toleration = "";
}

abbrev pub foreign : Foreign values
foreign = record {
  object_meta_deep_copy_into = λ (name, p). deep_copy_strings p >>= (λ q. pure (name, q));
  list_meta_deep_copy_into = pure;
  toleration_deep_copy_into = pure;
  range_order = λ l. l;
}

abbrev pub MetaView : View values (String × Ref) (String × Option (List String))
MetaView m x d = (x.0 ≡ d.0) × Points strings_shape TextsView m x.1 d.1

abbrev pub TextView : View values String String
TextView m x d = x ≡ d

pub text-Copies : Copies TextView pure
text-Copies h x d r =
    returns (record {
      grows = omega arith;
      kept = λ a l u. refl;
      fresh = λ m s. r h.cell (λ a l u. refl);
    })

pub meta-Copies : Copies MetaView foreign.object_meta_deep_copy_into
meta-Copies h x d r = bind _ (deep_copy_strings-Copies h x.1 d.1 (λ m s. (r m s).1)) (λ q h' c.
    returns (record {
      grows = c.grows;
      kept = c.kept;
      fresh = λ m s. ((r h.cell (λ a l u. refl)).0, c.fresh m s);
    }))

abbrev pub documented : Documented foreign
documented = record {
  ObjectContents = String × Option (List String);
  ObjectView = MetaView;
  object_meta = meta-Copies;
  ListMetaContents = String;
  ListMetaView = TextView;
  list_meta = text-Copies;
  TolerationContents = String;
  TolerationView = TextView;
  toleration = text-Copies;
  range = λ l. Perm.refl l;
}

abbrev pub a_spec : SpecValue
a_spec = record { node_selector = some 0; tolerations = some 1 }

abbrev pub a_status : StatusValue
a_status = record {
  finished = false;
  in_progress = true;
  currently_running_nodes = none;
  outstanding_nodes = some 2;
}

abbrev pub a_sosreport : SosreportValue values
a_sosreport = record {
  type_meta = "Sosreport";
  object_meta = ("s", some 3);
  spec = a_spec;
  status = a_status;
}

abbrev pub a_list : ListValue values
a_list = record { type_meta = "SosreportList"; list_meta = "7"; items = some 5 }

abbrev pub cells : List (Cell values)
cells =
    string_map (("role", "master") ∷ ("zone", "a") ∷ [])
    ∷ tolerations ("all" ∷ "some" ∷ [])
    ∷ strings ("n1" ∷ "n2" ∷ [])
    ∷ strings ("keep" ∷ [])
    ∷ sosreport a_sosreport
    ∷ sosreports (a_sosreport ∷ a_sosreport ∷ [])
    ∷ list a_list
    ∷ spec a_spec
    ∷ status a_status
    ∷ []

abbrev pub heap : Heap values
heap = record { next = 9; cell = get_elem? cells }

abbrev pub selector : String → Option String
selector k = find k (("role", "master") ∷ ("zone", "a") ∷ [])

abbrev pub spec_contents : SpecContents documented
spec_contents = record { node_selector = some selector; tolerations = some ("all" ∷ "some" ∷ []) }

abbrev pub status_contents : StatusContents
status_contents = record {
  finished = false;
  in_progress = true;
  currently_running_nodes = none;
  outstanding_nodes = some ("n1" ∷ "n2" ∷ []);
}

abbrev pub sosreport_contents : SosreportContents documented
sosreport_contents = record {
  type_meta = "Sosreport";
  object_meta = ("s", some ("keep" ∷ []));
  spec = spec_contents;
  status = status_contents;
}

abbrev pub list_contents : ListContents documented
list_contents = record {
  type_meta = "SosreportList";
  list_meta = "7";
  items = some (sosreport_contents ∷ sosreport_contents ∷ []);
}
