-- ===== src/Controller/Lifecycle/Whole.antt =====
-- The whole life of a Sosreport in Reconcile of controllers/sosreport_controller.go, from the first call
-- to the one that finishes it.
use sosreport_operator.Prelude.{Option}
use sosreport_operator.Exec.{Outcome}
use sosreport_operator.Api.{NamespacedName}
use sosreport_operator.Env.{Env, Error}
use sosreport_operator.Controller.State.{State}
use sosreport_operator.Controller.Reconcile.{reconcile}
use sosreport_operator.Controller.Lifecycle.Rounds.{Rounds}

-- two calls of Reconcile, the second in a world of its own
abbrev pub second_call :
    (e : Env) → NamespacedName → State e → e.World → Outcome (Option Error) × State e
second_call e req st w = reconcile e req (record (reconcile e req st).1 { w = w })
