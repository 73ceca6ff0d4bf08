-- ===== src/Json.antt =====
-- Go's encoding/json on `map[string]struct{}`, the form in which the controller keeps its job lists
-- in annotations: `json.Marshal` and `json.Unmarshal` of controllers/sosreport_controller.go.
-- A text is a list of characters. Two escaped surrogates in a row, which stand for one character
-- beyond U+FFFF, are read as two replacement characters here.
pub mod Text
pub mod Write
pub mod Read
pub mod RoundTrip
use Prim.Native.String.{String, count}
use sosreport_operator.Prelude.{Option, none, some}
use sosreport_operator.GoMap.{NodeSet, nil_map, made, keys}
use Write.{sort, print_object}
use Read.{read_document}

-- A nil map is `null`.
unfoldable pub marshal : NodeSet → String
unfolding print_object sort keys
marshal nil_map = "null"
marshal (made l) = print_object (sort (keys (made l)))

-- `none` is an error of `json.Unmarshal`. The text's length gives the fuel of the reader; a printed set
-- is read within it (Json/RoundTrip), and no theorem speaks of the texts that give `none`.
unfoldable pub unmarshal : String → Option NodeSet
unfolding read_document
unmarshal s = read_document (count s) s
