-- ===== src/DeepCopy/Maps.antt =====
-- The copy of a map of texts: the entries reach the new map in the order of a `range`.
use mathlib.Core.Bool.{Bool-set}
use mathlib.Core.List.{Perm, Permᴰ}
use mathlib.Core.List.Permᴰ.{nil, cons, swap, trans}
use mathlib.Core.Logic.{∥∥₁_elim}
use mathlib.Core.Path.{subst}
use sosreport_operator.Prelude.{
  ℕ, String, ◌==◌, eq_iff, ◌≡◌, refl, ap, ◌∙◌, Bool, true, false, ◌&&◌, ◌||◌, Option, none, some,
  List, [], ◌∷◌, arith, if◌then◌else◌,
}
use sosreport_operator.GoMap.Assoc.{find, put, find-put}
use sosreport_operator.DeepCopy.{Foreign, fill, deep_copy_map}
use sosreport_operator.DeepCopy.Fields.{nil-Copied}
use sosreport_operator.DeepCopy.Memory.{Values, Heap, string_map}
use sosreport_operator.DeepCopy.Memory.Points.{Points, Points-open, Points-Copied}
use sosreport_operator.DeepCopy.Memory.Reads.{
  Same, View, Copied, Copies, Same-trans, Same-write_above,
}
use sosreport_operator.DeepCopy.Memory.Returns.{
  Returns, returns, bind, mono, bind_of_eq, written, extended, load-of, store-of, alloc_lem,
  cell-written,
}
use sosreport_operator.DeepCopy.Memory.Shapes.{string_map_shape}

abbrev pub Entries : Type 0
Entries = List (String × String)

abbrev is_value : Option String → String → Bool
is_value none v = false
is_value (some w) v = w == v

-- every entry is one of the map `d`: no key stands twice with different values
unfoldable pub agrees : (String → Option String) → Entries → Bool
agrees d [] = true
agrees d ((k, v) ∷ l) = is_value (d k) v && agrees d l

unfoldable pub has_key : String → Entries → Bool
has_key k [] = false
has_key k ((j, v) ∷ l) = (j == k) || has_key k l

-- the contents of a map: what each key has
abbrev pub MapView : {V : Values} → View V Entries (String → Option String)
MapView m l d = (agrees d l ≡ true) × ((k : String) → find k l ≡ d k)

is_value-some : (o : Option String) (v : String) → is_value o v ≡ true → o ≡ some v
is_value-some none v e = ground (arith, e)
is_value-some (some w) v e = ground (arith, e, eq_iff w v)

agrees-nil : (d : String → Option String) → agrees d [] ≡ true
unfolding agrees
agrees-nil d = refl

agrees-permᴰ : (d : String → Option String) {l l' : Entries} → Permᴰ l l' → agrees d l ≡ agrees d l'
unfolding agrees
agrees-permᴰ d nil = refl
agrees-permᴰ d (cons {a = x} {b = y} {l₁ = xs} {l₂ = ys} e p) =
    subst (λ y. agrees d (x ∷ xs) ≡ agrees d (y ∷ ys)) e
      (ap (λ b. is_value (d x.0) x.1 && b) (agrees-permᴰ d p))
agrees-permᴰ d (swap {a} {b} e f) = rw (← e, ← f) (ground arith)
agrees-permᴰ d (trans p q) = agrees-permᴰ d p ∙ agrees-permᴰ d q

has_key-permᴰ : (k : String) {l l' : Entries} → Permᴰ l l' → has_key k l ≡ has_key k l'
unfolding has_key
has_key-permᴰ k nil = refl
has_key-permᴰ k (cons {a = x} {b = y} {l₁ = xs} {l₂ = ys} e p) =
    subst (λ y. has_key k (x ∷ xs) ≡ has_key k (y ∷ ys)) e
      (ap (λ b. (x.0 == k) || b) (has_key-permᴰ k p))
has_key-permᴰ k (swap {a} {b} e f) = rw (← e, ← f) (ground arith)
has_key-permᴰ k (trans p q) = has_key-permᴰ k p ∙ has_key-permᴰ k q

agrees-put :
    (d : String → Option String) (k v : String) (l : Entries)
    → is_value (d k) v ≡ true
    → agrees d l ≡ true
    → agrees d (put k v l) ≡ true
unfolding agrees put
agrees-put d k v [] here all = ground (arith, here)
agrees-put d k v ((j, w) ∷ l) here all = ground (arith, here, all, agrees-put d k v l)

has_key-find : (k : String) (l : Entries) → has_key k l ≡ false → find k l ≡ none
unfolding has_key find
has_key-find k [] e = refl
has_key-find k ((j, v) ∷ l) e = ground (arith, e, has_key-find k l)

-- The map at `out` after the entries `l` were put in the map `acc`.
record Put {V : Values} (d : String → Option String) (out : ℕ) (acc l : Entries) (h h' : Heap V)
    : Type 0 where
  entries : Entries
  same_next : h'.next ≡ h.next
  kept : Same 0 out h.cell h'.cell
  target : h'.cell out ≡ some (string_map entries)
  agreed : agrees d entries ≡ true
  found : (k : String) → find k entries ≡ (if has_key k l then d k else find k acc)

module _ {V : Values} (d : String → Option String) (out : ℕ) where
  Put-more :
      (k v : String) (acc l : Entries) (h h' : Heap V)
      → is_value (d k) v ≡ true
      → Put d out (put k v acc) l (written string_map_shape out (put k v acc) h) h'
      → Put d out acc ((k, v) ∷ l) h h'
  unfolding has_key
  Put-more k v acc l h h' e f = record {
    entries = f.entries;
    same_next = f.same_next;
    kept =
        Same-trans (Same-write_above 0 out h.cell out (string_map (put k v acc)) (omega arith))
          f.kept;
    target = f.target;
    agreed = f.agreed;
    found = λ j. ground (arith, f.found j, find-put k j v acc, eq_iff k j, is_value-some (d k) v e);
  }

  fill-Put :
      (acc l : Entries) (h : Heap V)
      → h.cell out ≡ some (string_map acc)
      → agrees d acc ≡ true
      → agrees d l ≡ true
      → Returns (λ u h'. Put d out acc l h h') (fill out l h)
  unfolding fill agrees has_key
  fill-Put acc [] h e a b = returns (record {
    entries = acc;
    same_next = refl;
    kept = λ i l u. refl;
    target = e;
    agreed = a;
    found = λ k. refl;
  })
  fill-Put acc ((k, v) ∷ l) h e a b =
      let first : is_value (d k) v ≡ true = ground (arith, b) in
      bind_of_eq _ (load-of string_map_shape out h acc e) (
        bind_of_eq _ (store-of string_map_shape out h acc (put k v acc) e) (
          mono
            (fill-Put (put k v acc) l (written string_map_shape out (put k v acc) h)
              (cell-written string_map_shape out (put k v acc) h) (agrees-put d k v acc first a)
              (ground (arith, b)))
            (λ u h' p. Put-more k v acc l h h' first p)))

module _ {V : Values} (f : Foreign V) (perm : (l : Entries) → Perm (f.range_order l) l) where
  agrees-range :
      (d : String → Option String) (l : Entries) → agrees d (f.range_order l) ≡ agrees d l
  agrees-range d l = ∥∥₁_elim (perm l) (Bool-set _ _) (agrees-permᴰ d)

  has_key-range : (k : String) (l : Entries) → has_key k (f.range_order l) ≡ has_key k l
  has_key-range k l = ∥∥₁_elim (perm l) (Bool-set _ _) (has_key-permᴰ k)

  ranged :
      (d : String → Option String) (l : Entries) (h h' : Heap V)
      → ((k : String) → find k l ≡ d k)
      → Put d h.next [] (f.range_order l) (extended string_map_shape [] h) h'
      → Copied (Points string_map_shape MapView) h (some d) (some h.next) h'
  unfolding find
  ranged d l h h' all p =
      Points-Copied string_map_shape MapView h h' p.entries d (omega (arith, p.same_next))
        (Same-trans (Same-write_above 0 h.next h.cell h.next (string_map []) (omega arith)) p.kept)
        p.target
        (λ m' same.
          (p.agreed, λ k. ground (arith, p.found k, has_key-range k l, all k, has_key-find k l)))

  pub deep_copy_map-Copies : Copies (Points string_map_shape MapView) (deep_copy_map f)
  unfolding deep_copy_map
  deep_copy_map-Copies h none none r = returns (nil-Copied string_map_shape MapView h)
  deep_copy_map-Copies h none (some d) r = absurd (r h.cell (λ a l u. refl))
  deep_copy_map-Copies h (some p) none r = absurd (r h.cell (λ a l u. refl))
  deep_copy_map-Copies h (some p) (some d) r =
      let (l, e, small, reads) = Points-open string_map_shape MapView h.next h.cell p d r in
      let seen = reads h.cell (λ a l u. refl) in
      let h1 = extended {V = V} string_map_shape [] h in
      let old = Same-write_above 0 h.next h.cell h.next (string_map []) (omega arith) in
      bind_of_eq _ (alloc_lem string_map_shape [] h) (
        bind_of_eq _ (load-of string_map_shape p h1 l (old p (omega arith) small ∙ e)) (
          bind _
            (fill-Put d h.next [] (f.range_order l) h1 (cell-written string_map_shape h.next [] h)
              (agrees-nil d) (agrees-range d l ∙ seen.0))
            (λ u h' p. returns (ranged d l h h' seen.1 p))))
