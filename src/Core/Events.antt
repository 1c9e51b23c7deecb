-- ===== src/Core/Events.antt =====
-- scheduler/core/events.go: the events of the scheduler, each as the change of its state. `none` is
-- an event that does not return: a nil pointer, or a scheduler that panics or hangs.
pub mod State
pub mod Back
pub mod Pieces
pub mod Results
pub mod Packets
pub mod Keeping
pub mod Turns
pub mod Runs
pub mod Trace
pub mod Basic
pub mod Cycle
