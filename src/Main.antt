-- ===== src/Main.antt =====
-- main of main.go: which log messages are printed; Manager has the rest of it.
pub mod Level
pub mod Manager
use sosreport_operator.Prelude.{Bool, ℤ, leb_ℤ}
use sosreport_operator.Controller.State.{SosreportLogLevel}

-- `lvl >= logLevel.MinLevel`
unfoldable pub enabled : SosreportLogLevel → ℤ → Bool
enabled log_level lvl = leb_ℤ log_level.min_level lvl
