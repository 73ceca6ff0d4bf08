-- ===== src/Json/Text/Quoted.antt =====
-- A JSON string that was written is read back.
use Prim.Native.Char.{Char, char, code, IsScalar}
use Prim.Native.String.{String, [], ◌∷◌}
use text.Mathlib.TextEquality.{Char-path}
use native.Mathlib.Decide.{dec_lt}
use sosreport_operator.Prelude.{
  ℕ, zero, suc, ◌+◌, ◌*◌, ◌/◌, ◌%◌, ◌<◌, ◌≡◌, refl, ap, ◌∙◌, true, false, ◌||◌, some, arith, ltb,
  nat_eq, Bool-cases, inl, inr,
}
use sosreport_operator.Json.Text.{
  hex, escape, escape_all, char_of, hex_value, plain, escaped, digits, Mode, go, emit, hex_move,
  cons, move, string_body,
}

hex_digit : (d : ℕ) → d < 16 → hex_value (code (hex d)) ≡ some d
unfolding hex hex_value
hex_digit zero h = refl
hex_digit (suc zero) h = refl
hex_digit (suc (suc zero)) h = refl
hex_digit (suc (suc (suc zero))) h = refl
hex_digit (suc (suc (suc (suc zero)))) h = refl
hex_digit (suc (suc (suc (suc (suc zero))))) h = refl
hex_digit (suc (suc (suc (suc (suc (suc zero)))))) h = refl
hex_digit (suc (suc (suc (suc (suc (suc (suc zero))))))) h = refl
hex_digit (suc (suc (suc (suc (suc (suc (suc (suc zero)))))))) h = refl
hex_digit (suc (suc (suc (suc (suc (suc (suc (suc (suc zero))))))))) h = refl
hex_digit (suc (suc (suc (suc (suc (suc (suc (suc (suc (suc zero)))))))))) h = refl
hex_digit (suc (suc (suc (suc (suc (suc (suc (suc (suc (suc (suc zero))))))))))) h = refl
hex_digit (suc (suc (suc (suc (suc (suc (suc (suc (suc (suc (suc (suc zero)))))))))))) h = refl
hex_digit (suc (suc (suc (suc (suc (suc (suc (suc (suc (suc (suc (suc (suc zero))))))))))))) h =
    refl
hex_digit (suc (suc (suc (suc (suc (suc (suc (suc (suc (suc (suc (suc (suc (suc zero))))))))))))))
      h =
    refl
hex_digit
      (suc (suc (suc (suc (suc (suc (suc (suc (suc (suc (suc (suc (suc (suc (suc zero)))))))))))))))
      h =
    refl
hex_digit
      (suc
        (suc (suc (suc (suc (suc (suc (suc (suc (suc (suc (suc (suc (suc (suc (suc d))))))))))))))))
      h =
    absurd (omega arith)

code-char_of : (n : ℕ) → n < 55296 → code (char_of n) ≡ n
unfolding char_of dec_lt
code-char_of n h = ground arith

-- one character read, by what it does
string_body_go :
    (m : Mode) (c : Char) (t : String) {m' : Mode}
    → move m c ≡ go m'
    → string_body m (c ∷ t) ≡ string_body m' t
unfolding string_body
string_body_go m c t h = rw (h, string_body) refl

string_body_emit :
    (m : Mode) (c : Char) (t : String) {d : Char}
    → move m c ≡ emit d
    → string_body m (c ∷ t) ≡ cons (some d) (string_body plain t)
unfolding string_body
string_body_emit m c t h = rw (h, string_body) refl

move-digits :
    (k acc d : ℕ) (x : Char)
    → hex_value (code x) ≡ some d
    → move (digits k acc) x ≡ hex_move k acc (some d)
unfolding move
move-digits k acc d x h = ap (hex_move k acc) h

-- The two last digits of a `\u00` escape give the character back.
read_hex :
    (c : Char) (t : String)
    → code c < 256
    → string_body (digits 1 0) (hex (code c / 16) ∷ hex (code c % 16) ∷ t)
      ≡ cons (some c) (string_body plain t)
unfolding hex_move
read_hex c t h =
    let hi = code c / 16 in
    let lo = code c % 16 in
    let acc : 0 * 16 + hi ≡ hi = omega arith in
    let whole : hi * 16 + lo ≡ code c = omega arith in
    let back : char_of (hi * 16 + lo) ≡ c =
      rw whole (Char-path _ _ (code-char_of (code c) (omega arith))) in
    string_body_go (digits 1 0) (hex hi) (hex lo ∷ t)
      (move-digits 1 0 hi (hex hi) (hex_digit hi (omega arith)))
    ∙ rw acc (
        string_body_emit (digits 0 hi) (hex lo) t
          (move-digits 0 hi lo (hex lo) (hex_digit lo (omega arith)) ∙ ap emit back))

same_char : (c : Char) (n : ℕ) (p : IsScalar n) → nat_eq (code c) n ≡ true → c ≡ char n p
same_char c n p h = Char-path c (char n p) (ground arith)

-- what the reader does with the first characters of a `\u00` escape
read_u00 :
    (c : Char) (t : String)
    → code c < 256
    → string_body plain ("\\" ∷ "u" ∷ "0" ∷ "0" ∷ hex (code c / 16) ∷ hex (code c % 16) ∷ t)
      ≡ cons (some c) (string_body plain t)
unfolding move
read_u00 c t h =
    string_body_go plain "\\" _ refl
    ∙ string_body_go escaped "u" _ refl
    ∙ string_body_go (digits 3 0) "0" _ refl
    ∙ string_body_go (digits 2 0) "0" _ refl
    ∙ read_hex c t h

move_plain :
    (c : Char)
    → nat_eq (code c) 34 ≡ false
    → nat_eq (code c) 92 ≡ false
    → ltb (code c) 32 ≡ false
    → move plain c ≡ emit c
unfolding move
move_plain c a b d = rw (a, b, d) refl

abbrev Reads : Char → String → Type 0
Reads c t = string_body plain (escape c t) ≡ cons (some c) (string_body plain t)

-- the characters that have an escape of their own
Reads-special :
    (t : String)
    → Reads "\"" t
      × Reads "\\" t
      × Reads "\n" t
      × Reads "\r" t
      × Reads "\t" t
      × Reads "\u{2028}" t
      × Reads "\u{2029}" t
unfolding escape string_body move
Reads-special t = (refl, refl, refl, refl, refl, refl, refl)

Reads-special_at :
    (c d : Char) (t : String) → nat_eq (code c) (code d) ≡ true → Reads d t → Reads c t
Reads-special_at c d t e h = let same : c ≡ d = Char-path c d (ground arith) in rw same h

-- An escaped character is read back, whatever stands behind it.
string_body-escape : (c : Char) (t : String) → Reads c t
unfolding escape
string_body-escape c t =
    let (q, b, n, r, tab, ls, ps) = Reads-special t in
    elim (Bool-cases (nat_eq (code c) 34)) [
      | inl e ↦ Reads-special_at c _ t e q
      | inr e₁ ↦ elim (Bool-cases (nat_eq (code c) 92)) [
        | inl e ↦ Reads-special_at c _ t e b
        | inr e₂ ↦ elim (Bool-cases (nat_eq (code c) 10)) [
          | inl e ↦ Reads-special_at c _ t e n
          | inr e₃ ↦ elim (Bool-cases (nat_eq (code c) 13)) [
            | inl e ↦ Reads-special_at c _ t e r
            | inr e₄ ↦ elim (Bool-cases (nat_eq (code c) 9)) [
              | inl e ↦ Reads-special_at c _ t e tab
              | inr e₅ ↦
                  elim (Bool-cases (
                    ltb (code c) 32
                    || nat_eq (code c) 60
                    || nat_eq (code c) 62
                    || nat_eq (code c) 38)) [
                      | inl e ↦ rw (e₁, e₂, e₃, e₄, e₅, e) (read_u00 c t (ground arith))
                      | inr e₆ ↦ elim (Bool-cases (nat_eq (code c) 8232)) [
                        | inl e ↦ Reads-special_at c _ t e ls
                        | inr e₇ ↦ elim (Bool-cases (nat_eq (code c) 8233)) [
                          | inl e ↦ Reads-special_at c _ t e ps
                          | inr e₈ ↦
                              rw (e₁, e₂, e₃, e₄, e₅, e₆, e₇, e₈)
                                (string_body_emit plain c t (move_plain c e₁ e₂ (ground arith)))
                        ]
                      ]
                    ]
            ]
          ]
        ]
      ]
    ]

closing : (t : String) → string_body plain ("\"" ∷ t) ≡ some ([], t)
unfolding string_body move
closing t = refl

-- A string that was written is read back, and the text behind it is left.
pub string_body-escape_all : (s t : String) → string_body plain (escape_all s t) ≡ some (s, t)
unfolding escape_all
string_body-escape_all [] t = closing t
string_body-escape_all (c ∷ s) t =
    string_body-escape c (escape_all s t) ∙ ap (cons (some c)) (string_body-escape_all s t)
