-- ===== src/Bytecode.antt =====
-- Calls, field accesses, supertypes and overrides read out of compiled classes
-- (graph_core/bytecode_resolver.py). `State` is what the pass carries, `Calls` the instructions of
-- one method, `Classes` the loop over classes, `Hierarchy` and `Overrides` what follows it, and
-- `Resolve` the whole with its two guards.
pub mod State
pub mod Calls
pub mod Classes
pub mod Hierarchy
pub mod Overrides
pub mod Resolve
