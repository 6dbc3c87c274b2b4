-- ===== src/Indices.antt =====
-- packages/indices: the ordinal table, the build protocol and the index kinds.
pub mod Projection
pub mod Ordinals
pub mod Queries
pub mod Base
pub mod HashMap
pub mod BTree
mod Tests
mod GraphTests
pub mod Bitmap
pub mod Graph
