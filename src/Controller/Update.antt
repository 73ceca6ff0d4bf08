-- ===== src/Controller/Update.antt =====
-- Writing the Sosreport back: update, updateStatus and refreshSosreport of
-- controllers/sosreport_controller.go. An error of the server is logged and dropped.
use sosreport_operator.Exec.{Exec, ◌>>=◌, ◌>>◌}
use sosreport_operator.Api.{NamespacedName}
use sosreport_operator.Env.{Env}
use sosreport_operator.Controller.State.{State, call, get_s, set_s, return}

module _ (e : Env) where
  -- refreshSosreport: it assigns the object that it reads to its own parameter, so that the
  -- caller's object stays as it is
  unfoldable pub refresh_sosreport : NamespacedName → Exec (State e) (Unit {0})
  refresh_sosreport req = do sosreport ← call e (e.get_sosreport req); return tt

  -- update
  unfoldable pub update : NamespacedName → Exec (State e) (Unit {0})
  update req = do s ← get_s; answer ← call e (e.update s); set_s answer.1; refresh_sosreport req

  -- updateStatus
  unfoldable pub update_status : NamespacedName → Exec (State e) (Unit {0})
  update_status req = do
    s ← get_s
    answer ← call e (e.update_status s)
    set_s answer.1
    refresh_sosreport req
