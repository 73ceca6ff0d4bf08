-- ===== src/Controller/Run/Loop.antt =====
-- The loop of runSosreportJobs of controllers/sosreport_controller.go: how many jobs it starts, and
-- for which nodes.
use sosreport_operator.Prelude.{
  ℕ, ◌+◌, ◌≤◌, String, ◌≡◌, refl, Bool, true, false, ◌||◌, List, [], ◌∷◌, ◌++◌, arith, ℤ, pos,
  negsuc, at_least, contains, length, length-append, Bool-cases, inl, inr, if◌then◌else◌,
}
use sosreport_operator.GoMap.{StringMap}
use sosreport_operator.Exec.{done}
use sosreport_operator.Exec.Rules.{bind-returns}
use sosreport_operator.Env.{Env}
use sosreport_operator.Controller.State.{State, return}
use sosreport_operator.Controller.Run.{start_job, start_loop}

-- no more than a limit, which allows nothing where it is negative
abbrev pub Within : ℤ → ℕ → Type 0
Within (pos l) n = n ≤ l
Within (negsuc l) n = n ≡ 0

contains-append :
    (k : String) (xs ys : List String) → contains k (xs ++ ys) ≡ (contains k xs || contains k ys)
contains-append k [] ys = refl
contains-append k (x ∷ xs) ys = ground (arith, contains-append k xs ys)

Within-suc : (l : ℤ) (i : ℕ) → Within l i → at_least i l ≡ false → Within l (i + 1)
Within-suc (pos l) i h k = ground arith
Within-suc (negsuc l) i h k = ground arith

module _ (e : Env) (environment : StringMap) (limit : ℤ) where
  -- What is started is within the limit, and consists of nodes of the list.
  pub record Started (new nodes new' : List String) : Type 0 where
    pub bound : Within limit (length new')
    pub from : (k : String) → contains k new' ≡ true → (contains k new || contains k nodes) ≡ true

  skipped :
      {new new' : List String} (n : String) (ns : List String)
      → Started new ns new'
      → Started new (n ∷ ns) new'
  skipped n ns s = record { bound = s.bound; from = λ k c. ground (arith, s.from k c) }

  taken :
      {new new' : List String} (n : String) (ns : List String)
      → Started (new ++ (n ∷ [])) ns new'
      → Started new (n ∷ ns) new'
  taken {new} n ns s = record {
    bound = s.bound;
    from = λ k c. ground (arith, s.from k c, contains-append k new (n ∷ []));
  }

  pub start_loop-Started :
      (i : ℕ) (new nodes : List String) (st : State e) {new' : List String}
      → i ≡ length new
      → Within limit (length new)
      → (start_loop e environment limit i new nodes st).0 ≡ done new'
      → Started new nodes new'
  unfolding start_loop return
  start_loop-Started i new [] st {new'} len fit h =
      let same : new ≡ new' = ground arith in
      rw (← same) (record { bound = fit; from = λ k c. ground arith })
  start_loop-Started i new (n ∷ ns) st {new'} len fit h = elim (Bool-cases (at_least i limit)) [
    | inl full ↦
        let same : new ≡ new' = ground arith in
        rw (← same) (record { bound = fit; from = λ k c. ground arith })
    | inr room ↦
        let next = λ (b : Bool).
          start_loop e environment limit (if b then i + 1 else i)
            (if b then new ++ (n ∷ []) else new) ns in
        let (b, ran, rest) =
          bind-returns (start_job e environment n) next st {b = new'} (rw room at h) in
        (elim b
            as (λ b'.
              ((next b' (start_job e environment n st).1).0 ≡ done new')
              → Started new (n ∷ ns) new') [
                | false ↦ λ h'.
                    skipped n ns
                      (start_loop-Started i new ns (start_job e environment n st).1 len fit h')
                | true ↦ λ h'. taken n ns (
                    start_loop-Started (i + 1) (new ++ (n ∷ [])) ns (start_job e environment n st).1
                      (omega (arith, length-append {0} new (n ∷ [])))
                      (rw length-append (rw (← len) (Within-suc limit i (rw len fit) room))) h')
              ])
          (rw rest at (rw room at h))
  ]
