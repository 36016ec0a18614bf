-- ===== src/Classfile.antt =====
-- graph_core/bytecode/classfile.py: the class file reader.
pub mod Reader
pub mod Utf8
pub mod Pool
pub mod Access
pub mod Descriptor
pub mod Shapes
pub mod Lines
pub mod Code
pub mod Attributes
pub mod Members
