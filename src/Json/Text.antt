-- ===== src/Json/Text.antt =====
-- JSON strings: how encoding/json writes them, with its HTML escapes, and reads them.
pub mod Quoted
use Prim.Native.Char.{Char, char, code, IsScalar}
use Prim.Native.String.{String, [], ◌∷◌, char_at}
use mathlib.Core.Logic.{dite}
use mathlib.Core.Bool.{◌&&◌, ◌||◌}
use native.Mathlib.Decide.{dec_lt}
use sosreport_operator.Prelude.{
  ℕ, zero, suc, ◌+◌, ◌-◌, ◌*◌, ◌/◌, ◌%◌, ◌<◌, Option, none, some, arith, ltb, leb, nat_eq,
  if◌then◌else◌,
}

-- a hexadecimal digit
hex : ℕ → Char
hex d = char_at "0123456789abcdef" d

-- what stands for a character, in front of the text behind it
unfoldable pub escape : Char → String → String
unfolding hex
escape c t =
    let n = code c in
    if nat_eq n 34
    then "\\" ∷ "\"" ∷ t
    else if nat_eq n 92
    then "\\" ∷ "\\" ∷ t
    else if nat_eq n 10
    then "\\" ∷ "n" ∷ t
    else if nat_eq n 13
    then "\\" ∷ "r" ∷ t
    else if nat_eq n 9
    then "\\" ∷ "t" ∷ t
    else if ltb n 32 || nat_eq n 60 || nat_eq n 62 || nat_eq n 38
    then "\\" ∷ "u" ∷ "0" ∷ "0" ∷ hex (n / 16) ∷ hex (n % 16) ∷ t
    else if nat_eq n 8232
    then "\\" ∷ "u" ∷ "2" ∷ "0" ∷ "2" ∷ "8" ∷ t
    else if nat_eq n 8233
    then "\\" ∷ "u" ∷ "2" ∷ "0" ∷ "2" ∷ "9" ∷ t
    else c ∷ t

-- the characters of a string, its closing quote, and the text behind it
unfoldable pub escape_all : String → String → String
unfolding escape
escape_all [] t = "\"" ∷ t
escape_all (c ∷ s) t = escape c (escape_all s t)

unfoldable pub quote : String → String → String
unfolding escape_all
quote s t = "\"" ∷ escape_all s t

pub IsScalar-low : (n : ℕ) → n < 55296 → IsScalar n
IsScalar-low n h = ground arith

pub IsScalar-high : (n : ℕ) → 57343 < n → n < 65536 → IsScalar n
IsScalar-high n h k = ground arith

-- the character of a `\u` escape
unfoldable pub char_of : ℕ → Char
unfolding dec_lt
char_of n =
    dite (dec_lt n 55296) (λ h. char n (IsScalar-low n h))
      (λ _.
        dite (dec_lt 57343 n)
          (λ h. dite (dec_lt n 65536) (λ k. char n (IsScalar-high n h k)) (λ _. "�")) (λ _. "�"))

unfoldable pub hex_value : ℕ → Option ℕ
hex_value n =
    if leb b'0' n && leb n b'9'
    then some (n - b'0')
    else if leb b'a' n && leb n b'f'
    then some (n - b'a' + 10)
    else if leb b'A' n && leb n b'F'
    then some (n - b'A' + 10)
    else none

-- the character after a backslash, if it is none of `u`
unescape : ℕ → Option Char
unescape n =
    if nat_eq n 34
    then some "\""
    else if nat_eq n 92
    then some "\\"
    else if nat_eq n b'/'
    then some "/"
    else if nat_eq n b'b'
    then some (char 8 tt)
    else if nat_eq n b'f'
    then some (char 12 tt)
    else if nat_eq n b'n'
    then some "\n"
    else if nat_eq n b'r'
    then some "\r"
    else if nat_eq n b't'
    then some "\t"
    else none

-- where the reader of a string stands: between characters, after a backslash, or in a `\u` escape
-- with so many digits to come and the value of those before
pub data Mode : Type 0 where
  plain escaped : Mode
  digits : ℕ → ℕ → Mode

abbrev pub cons : Option Char → Option (String × String) → Option (String × String)
cons (some c) (some (s, rest)) = some (c ∷ s, rest)
cons _ _ = none

-- what one character does in a mode: it ends the string, is refused, or leads on to a mode, with a
-- character read or none
pub data Move : Type 0 where
  stop refuse : Move
  go : Mode → Move
  emit : Char → Move

emit? : Option Char → Move
emit? none = refuse
emit? (some c) = emit c

hex_move : ℕ → ℕ → Option ℕ → Move
unfolding char_of
hex_move k acc none = refuse
hex_move zero acc (some d) = emit (char_of (acc * 16 + d))
hex_move (suc k) acc (some d) = go (digits k (acc * 16 + d))

unfoldable pub move : Mode → Char → Move
unfolding hex_move hex_value unescape emit?
move plain c =
    let n = code c in
    if nat_eq n 34
    then stop
    else if nat_eq n 92
    then go escaped
    else if ltb n 32
    then refuse
    else emit c
move escaped c = if nat_eq (code c) b'u' then go (digits 3 0) else emit? (unescape (code c))
move (digits k acc) c = hex_move k acc (hex_value (code c))

-- The rest of a string, after its opening quote: its characters, and the text behind it.
unfoldable pub string_body : Mode → String → Option (String × String)
unfolding move
string_body m [] = none
string_body m (c ∷ s) = elim (move m c) [
  | stop ↦ some ([], s)
  | refuse ↦ none
  | go m' ↦ string_body m' s
  | emit d ↦ cons (some d) (string_body plain s)
]
