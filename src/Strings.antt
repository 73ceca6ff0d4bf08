-- ===== src/Strings.antt =====
-- The calls of Go's strings and strconv packages in controllers/sosreport_controller.go. A text is
-- a list of characters; names and labels are ASCII, where a character is one byte.
use Prim.Native.String.{[], ◌∷◌}
use mathlib.Core.List.{[] as nil, ◌∷◌ as ◌▹◌}
use sosreport_operator.Prelude.{
  ℕ, zero, suc, ◌+◌, ◌-◌, ◌*◌, String, Option, none, some, List, code, Char, ◌&&◌, leb, ltb, nat_eq,
  if◌then◌else◌, ℤ, pos, negsuc, two63,
}

-- `c` in front of the first piece
grow : Char → List String → List String
grow c nil = (c ∷ []) ▹ nil
grow c (p ▹ ps) = (c ∷ p) ▹ ps

-- `strings.Split(s, sep)` for a separator of one character
unfoldable pub split : ℕ → String → List String
unfolding grow
split sep [] = [] ▹ nil
split sep (c ∷ s) = let rest = split sep s in if nat_eq (code c) sep then [] ▹ rest else grow c rest

-- `strings.Split(s, sep)[0]`; a split has a piece
unfoldable pub first_piece : List String → String
first_piece nil = []
first_piece (p ▹ ps) = p

-- `s[:n]`, for an `n` up to the length
unfoldable pub prefix : ℕ → String → String
prefix zero s = []
prefix (suc n) [] = []
prefix (suc n) (c ∷ s) = c ∷ prefix n s

unfoldable pub trim_left : ℕ → String → String
trim_left n [] = []
trim_left n (c ∷ s) = let rest = trim_left n s in if nat_eq (code c) n then rest else c ∷ s

trim_cons : ℕ → Char → String → String
trim_cons n c [] = if nat_eq (code c) n then [] else c ∷ []
trim_cons n c (d ∷ s) = c ∷ d ∷ s

unfoldable pub trim_right : ℕ → String → String
unfolding trim_cons
trim_right n [] = []
trim_right n (c ∷ s) = trim_cons n c (trim_right n s)

-- `strings.Trim(s, cutset)` for a cutset of one character
unfoldable pub trim : ℕ → String → String
unfolding trim_left trim_right
trim n s = trim_right n (trim_left n s)

-- decimal digits after a value read so far
unfoldable pub digits : ℕ → String → Option ℕ
digits n [] = some n
digits n (c ∷ s) =
    let rest = digits (n * 10 + (code c - b'0')) s in
    if leb b'0' (code c) && leb (code c) b'9' then rest else none

-- at least one digit
unfoldable pub decimal : String → Option ℕ
unfolding digits
decimal [] = none
decimal (c ∷ s) = digits 0 (c ∷ s)

negate : ℕ → ℤ
negate zero = pos 0
negate (suc n) = negsuc n

-- the range of `int`
positive : Option ℕ → Option ℤ
positive none = none
positive (some n) = if ltb n two63 then some (pos n) else none

negative : Option ℕ → Option ℤ
unfolding negate
negative none = none
negative (some n) = if leb n two63 then some (negate n) else none

-- `strconv.Atoi`; `none` is its error
unfoldable pub atoi : String → Option ℤ
unfolding positive negative decimal
atoi [] = none
atoi (c ∷ s) =
    if nat_eq (code c) b'-'
    then negative (decimal s)
    else if nat_eq (code c) b'+'
    then positive (decimal s)
    else positive (decimal (c ∷ s))
