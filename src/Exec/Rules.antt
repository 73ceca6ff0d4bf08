-- ===== src/Exec/Rules.antt =====
-- Rules for what actions keep, and for actions that return.
use sosreport_operator.Prelude.{◌≡◌, refl, Bool, true, false, if◌then◌else◌}
use sosreport_operator.Exec.{Outcome, done, panic, Exec, continue, ◌>>=◌}

-- What holds of a state before `m` holds of the state after it, also where `m` panics.
pub record Keeps {S A : Type 0} (Holds : S → Type 0) (m : Exec S A) : Type 0 where
  pub at : (before : S) → Holds before → Holds (m before).1

pub Keeps-if :
    {S A : Type 0} {Holds : S → Type 0} (test : Bool) (yes' no' : Exec S A)
    → Keeps Holds yes'
    → Keeps Holds no'
    → Keeps Holds (if test then yes' else no')
Keeps-if true yes' no' first second = first
Keeps-if false yes' no' first second = second

Keeps-continue :
    {S A B : Type 0} {Holds : S → Type 0} (rest : A → Exec S B)
    → ((a : A) → Keeps Holds (rest a))
    → (o : Outcome A) (between : S) → Holds between
    → Holds (continue o rest between).1
Keeps-continue rest kept (done a) between h = (kept a).at between h
Keeps-continue rest kept panic between h = h

pub Keeps-bind :
    {S A B : Type 0} {Holds : S → Type 0} (m : Exec S A) (rest : A → Exec S B)
    → Keeps Holds m
    → ((a : A) → Keeps Holds (rest a))
    → Keeps Holds (m >>= rest)
unfolding ◌>>=◌
Keeps-bind m rest first kept = record {
  at = λ before h. Keeps-continue rest kept (m before).0 (m before).1 (first.at before h);
}

-- An action that returns has run its first part to a value and gone on from there.
pub bind-returns :
    {S A B : Type 0} (m : Exec S A) (f : A → Exec S B) (s : S) {b : B}
    → ((m >>= f) s).0 ≡ done b
    → (a : A) × ((m s).0 ≡ done a) × ((m >>= f) s ≡ f a (m s).1)
unfolding ◌>>=◌
bind-returns {S} {A} {B} m f s {b} h = go (m s).0 refl h
  where
    go :
        (o : Outcome A)
        → (m s).0 ≡ o
        → (continue o f (m s).1).0 ≡ done b
        → (a : A) × ((m s).0 ≡ done a) × (continue (m s).0 f (m s).1 ≡ f a (m s).1)
    go (done a) e k = (a, e, rw e)
    go panic e k = absurd (cc)

pub bind_of_done :
    {S A B : Type 0} (m : Exec S A) (f : A → Exec S B) (s : S) {a : A}
    → (m s).0 ≡ done a
    → (m >>= f) s ≡ f a (m s).1
unfolding ◌>>=◌
bind_of_done m f s h = rw h
