-- ===== src/Database.antt =====
-- src/database: the key-value trees that every service keeps its state in.
pub mod Tree
pub mod Parts
pub mod Order
pub mod Find
pub mod ListTree
