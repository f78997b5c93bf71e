-- ===== src/Timer.antt =====
-- timer_queue.c and timer_queue.h: the timers and the queue of those that are armed.
-- A timer is embedded in the object that it serves, so its address is named by that object: a
-- `TimerRef`. The store `timers` holds the fields of `struct timer`; the links of its `list_t` are
-- the two lists `tq` (the queue) and `exptq` (what `timer_timeout` has taken off and not yet run).
-- Times are not negative and `long` does not overflow: `us` counts microseconds.
mod Defs
pub mod Order
pub mod Expiry
pub mod Time
pub mod Queue
mod Tests
unfoldable pub use Defs.*
