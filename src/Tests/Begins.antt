-- ===== src/Tests/Begins.antt =====
-- The properties of the first call of Reconcile of controllers/sosreport_controller.go and of main of
-- main.go at concrete inputs.
use sosreport_operator.Prelude.{none, some, []}
use sosreport_operator.Env.{ok}
use sosreport_operator.Controller.State.{State}
use sosreport_operator.Main.Manager.{Host, flags, new_reconciler}
use sosreport_operator.Tests.{report, ready}

-- the reconciler as main makes it
abbrev begun : State ready
begun = record { r = new_reconciler; s = report; w = [] }

-- every call succeeds
abbrev host : Host
host = record {
  World = Unit {0};
  Config = Unit {0};
  Manager = Unit {0};
  add_to_scheme = λ g w. (none, w);
  parse_flags = λ metrics leader w. (flags metrics leader, w);
  get_config = λ w. (some tt, w);
  new_manager = λ config options w. (ok tt, w);
  event_recorder_for = λ mgr name w. w;
  complete = λ mgr watches r w. (none, w);
  start = λ mgr w. (none, w);
}
