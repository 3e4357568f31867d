-- ===== src/Execution.antt =====
-- The execution of commands: paths, environments and what is kept of a command.
pub mod Paths
pub mod Containment
pub mod Service
pub mod Samples
