-- ===== src/Reach.antt =====
-- analysis/reach.py: reachability marks.
pub mod Propagate
pub mod Store
pub mod Marks
pub mod Counts
