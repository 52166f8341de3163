-- ===== src/Osada.antt =====
-- pokedex-server: the OSADA file system and its request handlers.
pub mod State
pub mod Geometry
pub mod Names
pub mod Table
pub mod Chain
pub mod Reply
pub mod Directory
pub mod Node
pub mod File
pub mod Server
mod Tests
