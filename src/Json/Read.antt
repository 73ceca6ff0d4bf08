-- ===== src/Json/Read.antt =====
-- Reading a JSON text into `map[string]struct{}`, as `json.Unmarshal` does: the whole text is
-- checked; `null` gives the nil map; of an object every value has to be an object or `null`, which
-- a `struct{}` takes, and any other value is an error.
pub mod Document
use Prim.Native.Char.{code}
use Prim.Native.String.{String, [], ◌∷◌}
use mathlib.Core.Bool.{◌&&◌, ◌||◌}
use mathlib.Core.List.{List, [] as nil, ◌∷◌ as ◌▹◌}
use sosreport_operator.Prelude.{
  ℕ, zero, suc, ◌+◌, ◌*◌, Bool, true, false, Option, none, some, leb, nat_eq, if◌then◌else◌,
}
use sosreport_operator.GoMap.{NodeSet, nil_map, made}
use sosreport_operator.GoMap.Assoc.{put}
use sosreport_operator.Json.Text.{plain, string_body}

-- What the target type asks of a value: null, an object with the keys and whether each value fits
-- `struct{}`, or another value.
pub data Value : Type 0 where
  null other : Value
  object : List (String × Bool) → Value

abbrev is_space : ℕ → Bool
is_space n = nat_eq n 32 || nat_eq n 10 || nat_eq n 13 || nat_eq n 9

skip : String → String
skip [] = []
skip (c ∷ s) = let rest = skip s in if is_space (code c) then rest else c ∷ s

-- the text behind a literal word
after : String → String → Option String
after [] s = some s
after (c ∷ w) [] = none
after (c ∷ w) (d ∷ s) = let rest = after w s in if nat_eq (code c) (code d) then rest else none

abbrev is_digit : ℕ → Bool
is_digit n = leb b'0' n && leb n b'9'

-- digits, at least one of them (`seen`)
digits_body : Bool → String → Option String
digits_body seen [] = if seen then some [] else none
digits_body seen (c ∷ s) =
    let rest = digits_body true s in
    if is_digit (code c) then rest else if seen then some (c ∷ s) else none

-- an exponent, if there is one
exponent : String → Option String
unfolding digits_body
exponent [] = some []
exponent (c ∷ []) = if nat_eq (code c) b'e' || nat_eq (code c) b'E' then none else some (c ∷ [])
exponent (c ∷ d ∷ s) =
    if nat_eq (code c) b'e' || nat_eq (code c) b'E'
    then (if nat_eq (code d) b'+' || nat_eq (code d) b'-'
        then digits_body false s
        else digits_body false (d ∷ s))
    else some (c ∷ d ∷ s)

bind : {A B : Type 0} → Option A → (A → Option B) → Option B
bind none f = none
bind (some a) f = f a

-- a fraction, if there is one, and the exponent
fraction : String → Option String
unfolding exponent digits_body bind
fraction [] = some []
fraction (c ∷ s) =
    if nat_eq (code c) b'.' then bind (digits_body false s) exponent else exponent (c ∷ s)

-- a number after its sign: no zero stands before other digits
unsigned : String → Option String
unfolding fraction digits_body bind
unsigned [] = none
unsigned (c ∷ s) =
    if nat_eq (code c) b'0' then fraction s else bind (digits_body false (c ∷ s)) fraction

number : String → Option String
unfolding unsigned
number [] = none
number (c ∷ s) = if nat_eq (code c) b'-' then unsigned s else unsigned (c ∷ s)

fits_struct : Value → Bool
fits_struct null = true
fits_struct other = false
fits_struct (object _) = true

add_member : String → Value → List (String × Bool) → List (String × Bool)
unfolding fits_struct
add_member k v l = (k, fits_struct v) ▹ l

-- The functions recur on fuel: of three calls in a row one reads a character, or the reading ends.
mutual
  unfolding skip after number string_body add_member bind

  value : ℕ → String → Option (Value × String)
  value zero s = none
  value (suc f) [] = none
  value (suc f) (c ∷ s) =
      let n = code c in
      elim (nat_eq n b'{') [
        | true ↦ open_object f (skip s)
        | false ↦ elim (nat_eq n b'[') [
          | true ↦ open_array f (skip s)
          | false ↦ elim (nat_eq n 34) [
            | true ↦ bind (string_body plain s) (λ r. some (other, r.1))
            | false ↦ elim (nat_eq n b'n') [
              | true ↦ bind (after "null" (c ∷ s)) (λ r. some (null, r))
              | false ↦ elim (nat_eq n b't') [
                | true ↦ bind (after "true" (c ∷ s)) (λ r. some (other, r))
                | false ↦ elim (nat_eq n b'f') [
                  | true ↦ bind (after "false" (c ∷ s)) (λ r. some (other, r))
                  | false ↦ bind (number (c ∷ s)) (λ r. some (other, r))
                ]
              ]
            ]
          ]
        ]
      ]

  open_object : ℕ → String → Option (Value × String)
  open_object zero s = none
  open_object (suc f) [] = none
  open_object (suc f) (c ∷ s) = elim (nat_eq (code c) b'}') [
    | true ↦ some (object nil, s)
    | false ↦ bind (members f (c ∷ s)) (λ r. some (object r.0, r.1))
  ]

  members : ℕ → String → Option (List (String × Bool) × String)
  members zero s = none
  members (suc f) [] = none
  members (suc f) (c ∷ s) = elim (nat_eq (code c) 34) [
    | true ↦ bind (string_body plain s) (λ k. member f k.0 (skip k.1))
    | false ↦ none
  ]

  -- a member after its key
  member : ℕ → String → String → Option (List (String × Bool) × String)
  member zero k s = none
  member (suc f) k [] = none
  member (suc f) k (c ∷ s) = elim (nat_eq (code c) b':') [
    | true ↦ bind (value f (skip s)) (λ v. more f k v.0 (skip v.1))
    | false ↦ none
  ]

  -- what stands behind a member
  more : ℕ → String → Value → String → Option (List (String × Bool) × String)
  more zero k v s = none
  more (suc f) k v [] = none
  more (suc f) k v (c ∷ s) = elim (nat_eq (code c) b',') [
    | true ↦ bind (members f (skip s)) (λ r. some (add_member k v r.0, r.1))
    | false ↦ elim (nat_eq (code c) b'}') [ true ↦ some (add_member k v nil, s) | false ↦ none ]
  ]

  open_array : ℕ → String → Option (Value × String)
  open_array zero s = none
  open_array (suc f) [] = none
  open_array (suc f) (c ∷ s) = elim (nat_eq (code c) b']') [
    | true ↦ some (other, s)
    | false ↦ elements f (c ∷ s)
  ]

  elements : ℕ → String → Option (Value × String)
  elements zero s = none
  elements (suc f) s = bind (value f s) (λ v. next f (skip v.1))

  next : ℕ → String → Option (Value × String)
  next zero s = none
  next (suc f) [] = none
  next (suc f) (c ∷ s) = elim (nat_eq (code c) b',') [
    | true ↦ elements f (skip s)
    | false ↦ elim (nat_eq (code c) b']') [ true ↦ some (other, s) | false ↦ none ]
  ]

-- A key that stands twice is set twice.
fill : List (String × Bool) → List (String × Unit {0}) → Option NodeSet
unfolding put
fill nil l = some (made l)
fill ((k, fits) ▹ ms) l = let rest = fill ms (put k tt l) in if fits then rest else none

to_set : Value → Option NodeSet
unfolding fill
to_set null = some nil_map
to_set other = none
to_set (object ms) = fill ms nil

-- Nothing but space may follow the value.
finish : Value × String → Option NodeSet
unfolding to_set
finish (v, []) = to_set v
finish (v, c ∷ s) = none

unfoldable pub read_document : ℕ → String → Option NodeSet
unfolding value finish skip bind
read_document f s = bind (value (3 * f + 3) (skip s)) (λ r. finish (r.0, skip r.1))
