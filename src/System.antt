-- ===== src/System.antt =====
-- The plugin on its server: the parts as server/plugin.go puts them together, and the steps that the
-- server makes with them. A state is that of the server with its key-value store, and the database.
pub mod Parts
pub mod Step
pub mod Ages
pub mod Invariant
pub mod Posted
pub mod Posts
pub mod Safety
pub mod Live
