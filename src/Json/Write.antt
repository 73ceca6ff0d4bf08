-- ===== src/Json/Write.antt =====
-- Writing a `map[string]struct{}`, as `json.Marshal` does: the keys in order, each with an empty
-- object.
use Prim.Native.String.{String, ◌∷◌, compare}
use Prim.Native.Nat.{Ordering}
use mathlib.Core.List.{List, [] as nil, ◌∷◌ as ◌▹◌}
use sosreport_operator.Json.Text.{quote}

-- an empty object as the value of a key
abbrev pub empty_value : String → String
empty_value t = ":" ∷ "{" ∷ "}" ∷ t

-- the members after the first, and the closing brace
unfoldable pub more_members : List String → String
unfolding quote
more_members nil = "}"
more_members (k ▹ ks) = "," ∷ quote k (empty_value (more_members ks))

unfoldable pub print_object : List String → String
unfolding quote more_members
print_object nil = "{}"
print_object (k ▹ ks) = "{" ∷ quote k (empty_value (more_members ks))

-- the keys in the order of their bytes
unfoldable pub insert : String → List String → List String
insert k nil = k ▹ nil
insert k (j ▹ l) =
    let rest = insert k l in elim (compare k j) [ Ordering.gt ↦ j ▹ rest | _ ↦ k ▹ j ▹ l ]

unfoldable pub sort : List String → List String
unfolding insert
sort nil = nil
sort (k ▹ l) = insert k (sort l)
