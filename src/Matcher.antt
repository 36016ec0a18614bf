-- ===== src/Matcher.antt =====
-- graph_core/bytecode/matcher.py: mapping bytecode members to extracted graph nodes.
pub mod Names
pub mod Index
pub mod Lookup
