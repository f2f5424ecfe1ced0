-- ===== src/Concert/Zones.antt =====
-- The update of a zone by an administrator, and the two counters of its tickets.
use mathlib.Core.Option
use ticket_queue_platform.Platform.{Platform}
