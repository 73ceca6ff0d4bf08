-- ===== src/Exec/Total.antt =====
-- Actions that return: those that cannot panic in the states that a predicate describes.
use sosreport_operator.Prelude.{◌≡◌, Bool, true, false, if◌then◌else◌}
use sosreport_operator.Exec.{done, Exec, ◌>>=◌}
use sosreport_operator.Exec.Rules.{Keeps, bind_of_done}

-- From a state with `Holds`, `m` returns a value with `Q`.
pub record Returns {S A : Type 0} (Holds : S → Type 0) (Q : A → Type 0) (m : Exec S A)
    : Type 0 where
  pub run : (st : S) → Holds st → (a : A) × ((m st).0 ≡ done a) × Q a

-- any value
abbrev pub Anything : {A : Type 0} → A → Type 0
Anything a = Unit

pub Returns-bind :
    {S A B : Type 0} {Holds : S → Type 0} {Q : A → Type 0} {R : B → Type 0} (m : Exec S A)
    (rest : A → Exec S B)
    → Returns Holds Q m
    → Keeps Holds m
    → ((a : A) → Q a → Returns Holds R (rest a))
    → Returns Holds R (m >>= rest)
Returns-bind m rest first kept next = record {
  run = λ st h.
      let (a, ran, q) = first.run st h in
      let (b, ran', r) = (next a q).run (m st).1 (kept.at st h) in
      (b, rw (bind_of_done m rest st ran) ran', r);
}

pub Returns-if :
    {S A : Type 0} {Holds : S → Type 0} {Q : A → Type 0} (test : Bool) (m n : Exec S A)
    → Returns Holds Q m
    → Returns Holds Q n
    → Returns Holds Q (if test then m else n)
Returns-if true m n first second = first
Returns-if false m n first second = second
