-- ===== src/Tests.antt =====
-- Runs of the theorems on concrete inputs, a module for each part of the program.
pub mod ClassFiles
pub mod Descriptors
pub mod Matching
pub mod Validation
pub mod Reaching
pub mod Reports
pub mod Scoring
pub mod Resolving
pub mod Deriving
pub mod Cataloguing
pub mod Checkpointing
pub mod Merging
pub mod Selecting
