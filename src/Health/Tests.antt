-- ===== src/Health/Tests.antt =====
-- A run of the monitor of health/monitor.go: three failures behind a success.
use pmesh.Base.Int.{pos}
use pmesh.Health.{MonitorLoop}

abbrev up : MonitorLoop
up = record { interval = pos 25; threshold = pos 1 }

abbrev down : MonitorLoop
down = record { interval = pos 5; threshold = pos 3 }
