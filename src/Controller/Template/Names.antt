-- ===== src/Controller/Template/Names.antt =====
-- The names that jobForSosreport of controllers/sosreport_controller.go gives to a Job and its
-- PersistentVolumeClaim.
use text.Mathlib.TextLemmas.{length-append, length-nil, length-cons}
use Prim.Native.Nat.{min}
use Prim.Native.String.{[], ◌∷◌}
use sosreport_operator.Prelude.{
  ℕ, zero, suc, ◌+◌, ◌-◌, ◌≤◌, ◌<◌, String, ◌<>◌, count, ◌≡◌, refl, none, some, arith, ltb, pos,
  if◌then◌else◌,
}
use sosreport_operator.Strings.{split, first_piece, prefix}
use sosreport_operator.Controller.Template.{layout, max_len, cut, short_name, job_name, pvc_name}

count-prefix : (n : ℕ) (s : String) → count (prefix n s) ≡ min n (count s)
unfolding prefix
count-prefix zero s = omega (arith, length-nil)
count-prefix (suc n) [] = omega (arith, length-nil)
count-prefix (suc n) (c ∷ s) =
    omega (arith, count-prefix n s, length-cons c s, length-cons c (prefix n s))

-- what is left of a name that is cut to `n` characters
abbrev pub shortened : String → ℕ → String
shortened short n = if ltb n (count short) then prefix n short else short

shortened-le : (short : String) (n : ℕ) → count (shortened short n) ≤ n
shortened-le short n = ground (arith, count-prefix n short)

max_len_of_fit : (name : String) → count name ≤ 43 → max_len name ≡ pos (43 - count name)
unfolding max_len
max_len_of_fit name h = ground arith

count-job_name :
    (name short time : String)
    → count (job_name name short time) ≡ count name + count short + count time + 2
unfolding job_name
count-job_name name short time = omega (
  arith,
  length-append name ("-" <> (short <> ("-" <> time))),
  length-append "-" (short <> ("-" <> time)),
  length-append short ("-" <> time),
  length-append "-" time,
)

count-pvc_name : (job : String) → count (pvc_name job) ≡ count job + 4
unfolding pvc_name
count-pvc_name job = omega (arith, length-append job "-pvc")

pub short_name_of_fit :
    (name node : String)
    → count name ≤ 43
    → short_name name node ≡ some (shortened (first_piece (split b'.' node)) (43 - count name))
unfolding short_name cut
short_name_of_fit name node h = rw (max_len_of_fit name h)

-- With a name of at most 43 characters, the part of the node's name before its first dot is cut to
-- what is left of them, and the names of the Job and of its claim keep Kubernetes' limit of 63
-- characters, the time being of 14 characters.
pub names_fit :
    (name node time : String)
    → count name ≤ 43
    → count time ≡ count layout
    → (short : String) × (short_name name node ≡ some short)
      × (short ≡ shortened (first_piece (split b'.' node)) (43 - count name))
      × (count (job_name name short time) ≤ 63)
      × (count (pvc_name (job_name name short time)) ≤ 63)
names_fit name node time h t =
    let host = first_piece (split b'.' node) in
    let short = shortened host (43 - count name) in
    let bound = shortened-le host (43 - count name) in
    let job = count-job_name name short time in
    let pvc = count-pvc_name (job_name name short time) in
    (
      short,
      short_name_of_fit name node h,
      refl,
      omega (arith, bound, job, t),
      omega (arith, bound, job, pvc, t),
    )

-- With a longer name the bound of the slice is negative, and the expression panics.
pub short_name_panics : (name node : String) → 43 < count name → short_name name node ≡ none
unfolding short_name cut max_len
short_name_panics name node h = ground arith
