-- ===== src/Agent/Slots.antt =====
-- Every goroutine of the agent gives back what it takes.
use mule.Runtime.Program.{Program}
use mule.Runtime.System.{System}
