-- ===== src/Core/Interpreter/Safety.antt =====
-- The interpreter keeps the invariant of the scheduling.
use pico_shell.System.{System}
