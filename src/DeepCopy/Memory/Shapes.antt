-- ===== src/DeepCopy/Memory/Shapes.antt =====
-- The kinds of cell and the zero values of the structs.
use sosreport_operator.Prelude.{String, refl, false, none, some, List}
use sosreport_operator.DeepCopy.Memory.{
  Values, SpecValue, StatusValue, SosreportValue, ListValue, Shape, string_map, strings,
  tolerations, sosreports, spec, status, sosreport, list,
}

abbrev pub zero_spec : SpecValue
zero_spec = record { node_selector = none; tolerations = none }

abbrev pub zero_status : StatusValue
zero_status = record {
  finished = false;
  in_progress = false;
  currently_running_nodes = none;
  outstanding_nodes = none;
}

abbrev pub zero_sosreport : (V : Values) → SosreportValue V
zero_sosreport V = record {
  type_meta = V.zero_type_meta;
  object_meta = V.zero_object_meta;
  spec = zero_spec;
  status = zero_status;
}

abbrev pub zero_list : (V : Values) → ListValue V
zero_list V = record { type_meta = V.zero_type_meta; list_meta = V.zero_list_meta; items = none }

module _ {V : Values} where
  abbrev pub string_map_shape : Shape V (List (String × String))
  string_map_shape = record {
    wrap = string_map;
    read = λ c. elim c [ string_map l ↦ some l | _ ↦ none ];
    same = λ l. refl;
  }

  abbrev pub strings_shape : Shape V (List String)
  strings_shape = record {
    wrap = strings;
    read = λ c. elim c [ strings l ↦ some l | _ ↦ none ];
    same = λ l. refl;
  }

  abbrev pub tolerations_shape : Shape V (List V.Toleration)
  tolerations_shape = record {
    wrap = tolerations;
    read = λ c. elim c [ tolerations l ↦ some l | _ ↦ none ];
    same = λ l. refl;
  }

  abbrev pub sosreports_shape : Shape V (List (SosreportValue V))
  sosreports_shape = record {
    wrap = sosreports;
    read = λ c. elim c [ sosreports l ↦ some l | _ ↦ none ];
    same = λ l. refl;
  }

  abbrev pub spec_shape : Shape V SpecValue
  spec_shape = record {
    wrap = spec;
    read = λ c. elim c [ spec x ↦ some x | _ ↦ none ];
    same = λ x. refl;
  }

  abbrev pub status_shape : Shape V StatusValue
  status_shape = record {
    wrap = status;
    read = λ c. elim c [ status x ↦ some x | _ ↦ none ];
    same = λ x. refl;
  }

  abbrev pub sosreport_shape : Shape V (SosreportValue V)
  sosreport_shape = record {
    wrap = sosreport;
    read = λ c. elim c [ sosreport x ↦ some x | _ ↦ none ];
    same = λ x. refl;
  }

  abbrev pub list_shape : Shape V (ListValue V)
  list_shape = record {
    wrap = list;
    read = λ c. elim c [ list x ↦ some x | _ ↦ none ];
    same = λ x. refl;
  }
