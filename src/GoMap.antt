-- ===== src/GoMap.antt =====
-- Go's maps with text keys, as the controller uses them (controllers/sosreport_controller.go).
-- A map is nil or made; a nil map reads as empty, and an assignment to an entry of it panics.
-- The entries stand in no order that the program sees: a `range` goes by Env's `range_order`.
pub mod Assoc
pub mod Laws
pub mod Sets
pub mod Entries
use sosreport_operator.Prelude.{
  ℕ, String, Bool, true, false, Option, none, some, List, [], ◌∷◌, map, length,
}
use Assoc.{find, put, without}

pub data GoMap (V : Type 0) : Type 0 where
  nil_map : GoMap V
  made : List (String × V) → GoMap V

-- `map[string]struct{}`
abbrev pub NodeSet : Type 0
NodeSet = GoMap (Unit {0})

abbrev pub StringMap : Type 0
StringMap = GoMap String

module _ {V : Type 0} where
  unfoldable pub entries : GoMap V → List (String × V)
  entries nil_map = []
  entries (made l) = l

  -- `v, ok := m[k]`
  unfoldable pub get : GoMap V → String → Option V
  unfolding entries
  get m k = find k (entries m)

  -- `m[k] = v`; `none` is the panic at a nil map
  unfoldable pub assign : GoMap V → String → V → Option (GoMap V)
  assign nil_map k v = none
  assign (made l) k v = some (made (put k v l))

  -- `delete(m, k)`, which does nothing on a nil map
  unfoldable pub delete : GoMap V → String → GoMap V
  delete nil_map k = nil_map
  delete (made l) k = made (without k l)

  -- `len(m)`
  unfoldable pub len : GoMap V → ℕ
  unfolding entries
  len m = length (entries m)

  -- the keys that a `range` visits
  unfoldable pub keys : GoMap V → List String
  unfolding entries
  keys m = map (λ e. e.0) (entries m)

abbrev pub is_some {ℓ} : {A : Type ℓ} → Option A → Bool
is_some none = false
is_some (some _) = true

abbrev pub or_nil : {V : Type 0} → Option (GoMap V) → GoMap V
or_nil none = nil_map
or_nil (some m) = m

-- `_, ok := m[k]`
abbrev pub has : {V : Type 0} → GoMap V → String → Bool
has m k = is_some (get m k)

-- `m[k]` where the values are maps: the zero value is the nil map
abbrev pub get_map : {V : Type 0} → GoMap (GoMap V) → String → GoMap V
get_map m k = or_nil (get m k)

-- `if m == nil { m = make(...) }`
abbrev pub or_made : {V : Type 0} → GoMap V → GoMap V
or_made nil_map = made []
or_made (made l) = made l

-- `m[k]` of texts: the zero value is the empty text
abbrev pub get_text : StringMap → String → String
get_text m k = elim (get m k) [ none ↦ "" | some v ↦ v ]

or_same : {V : Type 0} → GoMap V → Option (GoMap V) → GoMap V
or_same m none = m
or_same m (some m') = m'

-- `delete(m[u], k)`: the inner map is changed in place
unfoldable pub delete_in : GoMap NodeSet → String → String → GoMap NodeSet
unfolding or_same
delete_in m u k = elim (get m u) [ none ↦ m | some n ↦ or_same m (assign m u (delete n k)) ]

assign_inner : GoMap NodeSet → String → Option NodeSet → Option (GoMap NodeSet)
assign_inner m u none = none
assign_inner m u (some n) = assign m u n

-- `m[u][k] = struct{}{}`: the inner map is changed in place; `none` is the panic at a nil one
unfoldable pub assign_in : GoMap NodeSet → String → String → Option (GoMap NodeSet)
unfolding assign_inner
assign_in m u k = elim (get m u) [ none ↦ none | some n ↦ assign_inner m u (assign n k tt) ]
