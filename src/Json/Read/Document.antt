-- ===== src/Json/Read/Document.antt =====
-- An object that was written is read back.
use Prim.Native.String.{String, [], ◌∷◌, count}
use Prim.Native.Char.{Char}
use mathlib.Core.List.{List, [] as nil, ◌∷◌ as ◌▹◌, map}
use text.Mathlib.TextLemmas.{length-cons}
use sosreport_operator.Prelude.{
  ℕ, zero, suc, ◌+◌, ◌*◌, ◌≤◌, ◌≡◌, refl, ap, ◌∙◌, Bool, true, false, Option, some, arith, length,
  if◌then◌else◌,
}
use sosreport_operator.Json.Text.{quote, escape, escape_all}
use sosreport_operator.Json.Text.Quoted.{string_body-escape_all}
use sosreport_operator.Json.Write.{empty_value, more_members, print_object}
use sosreport_operator.GoMap.{made}
use sosreport_operator.GoMap.Assoc.{put}
use sosreport_operator.Json.Read.{
  read_document, fill, finish, to_set, Value, object, skip, bind, fits_struct, add_member, value,
  members, member, more,
}

-- the members that are read for the keys: each value fits
abbrev pub read_members : List String → List (String × Bool)
read_members ks = map (λ k. (k, true)) ks

-- The steps behind a key: its empty object, up to what follows.
member_read :
    (f : ℕ) (k t : String)
    → member (suc (suc (suc f))) k (empty_value t) ≡ more (suc (suc f)) k (object nil) (skip t)
unfolding value
member_read f k t = refl

members_read :
    (f : ℕ) (k t : String)
    → members (suc (suc (suc (suc f)))) (quote k (empty_value t))
      ≡ more (suc (suc f)) k (object nil) (skip t)
unfolding value quote
members_read f k t =
    ap (λ (o : Option (String × String)). bind o (λ r. member (suc (suc (suc f))) r.0 (skip r.1)))
      (string_body-escape_all k (empty_value t))

last_member :
    (f : ℕ) (k : String)
    → more (suc (suc f)) k (object nil) (skip "}") ≡ some (read_members (k ▹ nil), [])
unfolding value fits_struct
last_member f k = refl

next_member :
    (f : ℕ) (k l : String) (ks : List String)
    → more
        (suc (suc (suc (suc (suc f)))))
        k
        (object nil)
        (skip ("," ∷ quote l (empty_value (more_members ks))))
      ≡ bind
          (members (suc (suc (suc (suc f)))) (quote l (empty_value (more_members ks))))
          (λ r. some (add_member k (object nil) r.0, r.1))
unfolding value quote
next_member f k l ks = refl

-- the members that were written for a key and the keys behind it
members-print :
    (f : ℕ) (k : String) (ks : List String)
    → 3 * length ks ≤ f
    → members (suc (suc (suc (suc f)))) (quote k (empty_value (more_members ks)))
      ≡ some (read_members (k ▹ ks), [])
unfolding more_members bind add_member
members-print f k nil h = members_read f k (more_members nil) ∙ last_member f k
members-print zero k (l ▹ ks) h = absurd (omega arith)
members-print (suc zero) k (l ▹ ks) h = absurd (omega arith)
members-print (suc (suc zero)) k (l ▹ ks) h = absurd (omega arith)
members-print (suc (suc (suc f))) k (l ▹ ks) h =
    members_read (suc (suc (suc f))) k (more_members (l ▹ ks))
    ∙ next_member f k l ks
    ∙ ap
        (λ (o : Option (List (String × Bool) × String)).
          bind o (λ r. some (add_member k (object nil) r.0, r.1)))
        (members-print f l ks (omega arith))

count-same : (t : String) → count t ≤ count t
count-same t = omega arith

count-longer : (c : Char) (t s : String) → count t ≤ count s → count t ≤ count (c ∷ s)
count-longer c t s h = omega (arith, length-cons c s, h)

count-if :
    (b : Bool) (t x y : String)
    → count t ≤ count x
    → count t ≤ count y
    → count t ≤ count (if b then x else y)
count-if true t x y h k = h
count-if false t x y h k = k

count-escape : (c : Char) (t : String) → count t ≤ count (escape c t)
unfolding escape
count-escape c t = search (count-if, count-longer, count-same) depth 30

count-escape_all : (s t : String) → count t ≤ count (escape_all s t)
unfolding escape_all
count-escape_all [] t = omega (arith, length-cons "\"" t)
count-escape_all (c ∷ s) t = omega (arith, count-escape c (escape_all s t), count-escape_all s t)

-- every key is written with one character at least
length-le-count : (ks : List String) → length ks ≤ count (more_members ks)
unfolding more_members quote
length-le-count nil = omega arith
length-le-count (k ▹ ks) = omega (
  arith,
  length-cons "," (quote k (empty_value (more_members ks))),
  length-cons "\"" (escape_all k (empty_value (more_members ks))),
  count-escape_all k (empty_value (more_members ks)),
  length-cons ":" ("{" ∷ "}" ∷ more_members ks),
  length-cons "{" ("}" ∷ more_members ks),
  length-cons "}" (more_members ks),
  length-le-count ks,
)

empty_read : (f : ℕ) → value (suc (suc f)) (skip "{}") ≡ some (object nil, [])
unfolding value
empty_read f = refl

opened :
    (f : ℕ) (k t : String)
    → value (suc (suc f)) (skip ("{" ∷ quote k t))
      ≡ bind (members f (quote k t)) (λ r. some (object r.0, r.1))
unfolding value quote
opened f k t = refl

value-print :
    (f : ℕ) (ks : List String)
    → 3 * length ks + 6 ≤ f
    → value f (skip (print_object ks)) ≡ some (object (read_members ks), [])
unfolding print_object bind
value-print (suc (suc (suc (suc (suc (suc f)))))) nil h = empty_read (suc (suc (suc (suc f))))
value-print (suc (suc (suc (suc (suc (suc f)))))) (k ▹ ks) h =
    opened (suc (suc (suc (suc f)))) k (empty_value (more_members ks))
    ∙ ap (λ (o : Option (List (String × Bool) × String)). bind o (λ r. some (object r.0, r.1)))
        (members-print f k ks (omega arith))
value-print f ks h = absurd (omega arith)

count-print_object : (ks : List String) → length ks + 1 ≤ count (print_object ks)
unfolding print_object quote
count-print_object nil = omega arith
count-print_object (k ▹ ks) = omega (
  arith,
  length-cons "{" (quote k (empty_value (more_members ks))),
  length-cons "\"" (escape_all k (empty_value (more_members ks))),
  count-escape_all k (empty_value (more_members ks)),
  length-cons ":" ("{" ∷ "}" ∷ more_members ks),
  length-cons "{" ("}" ∷ more_members ks),
  length-cons "}" (more_members ks),
  length-le-count ks,
)

-- the map that is filled from the keys, onto the entries there
abbrev pub filled : List String → List (String × Unit {0}) → List (String × Unit {0})
filled nil l = l
filled (k ▹ ks) l = filled ks (put k tt l)

fill-read_members :
    (ks : List String) (l : List (String × Unit {0}))
    → fill (read_members ks) l ≡ some (made (filled ks l))
unfolding fill
fill-read_members nil l = refl
fill-read_members (k ▹ ks) l = fill-read_members ks (put k tt l)

-- The document that is written for some keys is read back as the map of these keys.
pub read_document-print_object :
    (ks : List String)
    → read_document (count (print_object ks)) (print_object ks) ≡ some (made (filled ks nil))
unfolding read_document finish to_set
read_document-print_object ks =
    ap (λ (o : Option (Value × String)). bind o (λ r. finish (r.0, skip r.1)))
      (value-print (3 * count (print_object ks) + 3) ks (omega (arith, count-print_object ks)))
    ∙ fill-read_members ks nil
