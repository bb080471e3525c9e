-- ===== src/Examples.antt =====
-- Concrete inputs, at which the theorems apply.
pub mod Wire
pub mod Faults
pub mod Texts
pub mod Requests
pub mod Calls
pub mod Verdicts
pub mod Connections
pub mod Waits
pub mod Threads
pub mod Parameters
pub mod Inputs
