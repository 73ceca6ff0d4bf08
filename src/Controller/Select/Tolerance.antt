-- ===== src/Controller/Select/Tolerance.antt =====
-- What tolerates of controllers/sosreport_controller.go decides.
use sosreport_operator.Prelude.{
  ℕ, ◌+◌, ◌≡◌, ◌↔◌, refl, true, List, [], ◌∷◌, arith, length, All, Any, inl, inr, Bool-cases,
}
use sosreport_operator.Api.{Taint, Toleration}
use sosreport_operator.Env.{Env}
use sosreport_operator.Controller.Select.{tolerates_taint_loop, tolerates}

module _ (e : Env) where
  -- one of the tolerations tolerates the taint
  abbrev pub IsTolerated : List Toleration → Taint → Type 0
  IsTolerated ts taint = Any (λ t. e.tolerates_taint t taint ≡ true) ts

  loop_sound :
      (n ti : ℕ) (t : Toleration) (ts : List Toleration) (taint : Taint)
      → n ≡ ti + length (t ∷ ts)
      → tolerates_taint_loop e n ti (t ∷ ts) taint ≡ true
      → IsTolerated (t ∷ ts) taint
  unfolding tolerates_taint_loop
  loop_sound n ti t [] taint len h = ground arith
  loop_sound n ti t (t' ∷ ts) taint len h = elim (Bool-cases (e.tolerates_taint t taint)) [
    | inl p ↦ inl p
    | inr p ↦ inr (loop_sound n (ti + 1) t' ts taint (omega arith) (ground arith))
  ]

  loop_complete :
      (n ti : ℕ) (ts : List Toleration) (taint : Taint)
      → n ≡ ti + length ts
      → IsTolerated ts taint
      → tolerates_taint_loop e n ti ts taint ≡ true
  unfolding tolerates_taint_loop
  loop_complete n ti [] taint len h = refl
  loop_complete n ti (t ∷ []) taint len h = ground arith
  loop_complete n ti (t ∷ t' ∷ ts) taint len h =
      ground (arith, loop_complete n (ti + 1) (t' ∷ ts) taint)

  tolerates_sound :
      (ts : List Toleration) (taints : List Taint)
      → tolerates e ts taints ≡ true
      → All (IsTolerated ts) taints
  unfolding tolerates
  tolerates_sound ts [] h = tt
  tolerates_sound [] (x ∷ taints) h = ground arith
  tolerates_sound (t ∷ ts) (x ∷ taints) h =
      elim (Bool-cases (tolerates_taint_loop e (length (t ∷ ts)) 0 (t ∷ ts) x)) [
        | inl p ↦
            (loop_sound _ 0 t ts x (omega arith) p, tolerates_sound (t ∷ ts) taints (ground arith))
        | inr p ↦ ground arith
      ]

  tolerates_complete :
      (ts : List Toleration) (taints : List Taint)
      → All (IsTolerated ts) taints
      → tolerates e ts taints ≡ true
  unfolding tolerates
  tolerates_complete ts [] h = refl
  tolerates_complete [] (x ∷ taints) h = absurd h.0
  tolerates_complete (t ∷ ts) (x ∷ taints) h = ground (
    arith,
    loop_complete (length (t ∷ ts)) 0 (t ∷ ts) x (omega arith) h.0,
    tolerates_complete (t ∷ ts) taints h.1,
  )

  -- A node is tolerated exactly when each of its taints is tolerated by one of the Sosreport's
  -- tolerations.
  pub tolerates_iff :
      (ts : List Toleration) (taints : List Taint)
      → (tolerates e ts taints ≡ true) ↔ All (IsTolerated ts) taints
  tolerates_iff ts taints = (tolerates_sound ts taints, tolerates_complete ts taints)
