-- ===== src/DeepCopy/Memory.antt =====
-- The memory that the deep copies of api/v1alpha1/zz_generated.deepcopy.go read and write. A
-- pointer, a slice and a map are addresses, `none` where they are nil; a struct is a value. What a
-- slice or a map refers to and what a pointer points at is a cell. A slice starts at the front of
-- its array and is as long as it: the functions here only see such slices.
pub mod Returns
pub mod Reads
pub mod Points
pub mod Growth
pub mod Parts
pub mod Shapes
use sosreport_operator.Prelude.{
  ℕ, zero, suc, ◌+◌, String, ◌≡◌, refl, Bool, Option, none, some, List, [], ◌∷◌, nat_eq,
  if◌then◌else◌,
}

-- The types of k8s.io/apimachinery and k8s.io/api that the structs hold, their zero values, and the
-- cells that those values refer to.
pub record Values : Type 1 where
  pub TypeMeta : Type 0
  pub ObjectMeta : Type 0
  pub ListMeta : Type 0
  pub Toleration : Type 0
  pub Other : Type 0
  pub zero_type_meta : TypeMeta
  pub zero_object_meta : ObjectMeta
  pub zero_list_meta : ListMeta
  pub zero_toleration : Toleration

-- A reference to a cell: a pointer, a slice or a map.
abbrev pub Ref : Type 0
Ref = Option ℕ

-- The structs have the kind of their references as a parameter: `Ref` for both in memory.
pub record SpecStruct (M T : Type 0) : Type 0 where
  pub node_selector : M
  pub tolerations : T

pub record StatusStruct (N : Type 0) : Type 0 where
  pub finished : Bool
  pub in_progress : Bool
  pub currently_running_nodes : N
  pub outstanding_nodes : N

pub record SosreportStruct (K O S U : Type 0) : Type 0 where
  pub type_meta : K
  pub object_meta : O
  pub spec : S
  pub status : U

pub record ListStruct (K L I : Type 0) : Type 0 where
  pub type_meta : K
  pub list_meta : L
  pub items : I

abbrev pub SpecValue : Type 0
SpecValue = SpecStruct Ref Ref

abbrev pub StatusValue : Type 0
StatusValue = StatusStruct Ref

abbrev pub SosreportValue : Values → Type 0
SosreportValue V = SosreportStruct V.TypeMeta V.ObjectMeta SpecValue StatusValue

abbrev pub ListValue : Values → Type 0
ListValue V = ListStruct V.TypeMeta V.ListMeta Ref

pub data Cell (V : Values) : Type 0 where
  string_map : List (String × String) → Cell V
  strings : List String → Cell V
  tolerations : List V.Toleration → Cell V
  sosreports : List (SosreportValue V) → Cell V
  spec : SpecValue → Cell V
  status : StatusValue → Cell V
  sosreport : SosreportValue V → Cell V
  list : ListValue V → Cell V
  other : V.Other → Cell V

abbrev pub Memory : Values → Type 0
Memory V = ℕ → Option (Cell V)

-- `next` is the first address that was never given out.
pub record Heap (V : Values) : Type 0 where
  pub next : ℕ
  pub cell : Memory V

-- A kind of cell: how its contents are put in and taken out.
pub record Shape (V : Values) (A : Type 0) : Type 0 where
  pub wrap : A → Cell V
  pub read : Cell V → Option A
  pub same : (a : A) → read (wrap a) ≡ some a

-- `none` is a panic
abbrev pub Cmd : Values → Type 0 → Type 0
Cmd V A = Heap V → Option (A × Heap V)

unfoldable pub write : {V : Values} → Memory V → ℕ → Cell V → Memory V
write m p c a = if nat_eq a p then some c else m a

module _ {V : Values} {A : Type 0} where
  abbrev pub pure : A → Cmd V A
  pure a h = some (a, h)

  -- an index out of range panics
  abbrev pub lift : Option A → Cmd V A
  lift none h = none
  lift (some a) h = some (a, h)

  unfoldable pub load : Shape V A → ℕ → Cmd V A
  load k p h = elim (h.cell p) [
    | none ↦ none
    | some c ↦ elim (k.read c) [ none ↦ none | some a ↦ some (a, h) ]
  ]

  -- `*p = a`, where the cell is there
  unfoldable pub store : Shape V A → ℕ → A → Cmd V (Unit {0})
  unfolding write
  store k p a h = elim (h.cell p) [
    | none ↦ none
    | some c ↦ some (tt, record { next = h.next; cell = write h.cell p (k.wrap a) })
  ]

  -- `new` and `make`: a cell at a fresh address
  unfoldable pub alloc : Shape V A → A → Cmd V ℕ
  unfolding write
  alloc k a h = some (h.next, record { next = h.next + 1; cell = write h.cell h.next (k.wrap a) })

module _ {V : Values} {A B : Type 0} where
  abbrev pub and_then : Option (A × Heap V) → (A → Cmd V B) → Option (B × Heap V)
  and_then none rest = none
  and_then (some (a, h)) rest = rest a h

  infixl 5 ◌>>=◌ ◌>>◌
  abbrev pub ◌>>=◌ : Cmd V A → (A → Cmd V B) → Cmd V B
  (m >>= rest) h = and_then (m h) rest

  abbrev pub ◌>>◌ : Cmd V A → Cmd V B → Cmd V B
  m >> n = m >>= (λ _. n)

module _ {A : Type 0} where
  unfoldable pub get_elem? : List A → ℕ → Option A
  get_elem? [] i = none
  get_elem? (x ∷ xs) zero = some x
  get_elem? (x ∷ xs) (suc i) = get_elem? xs i

  -- `l[i] = y`, inside the range
  unfoldable pub set : List A → ℕ → A → List A
  set [] i y = []
  set (x ∷ xs) zero y = y ∷ xs
  set (x ∷ xs) (suc i) y = x ∷ set xs i y

  -- the array of `make([]A, n)`
  unfoldable pub replicate : ℕ → A → List A
  replicate zero a = []
  replicate (suc n) a = a ∷ replicate n a

  -- `copy(dst, src)`: as many elements as the shorter of the two has
  unfoldable pub copy : List A → List A → List A
  copy [] src = []
  copy (x ∷ dst) [] = x ∷ dst
  copy (x ∷ dst) (y ∷ src) = y ∷ copy dst src
