-- ===== src/Mapa.antt =====
-- tp-2016-2c-Stranger-Code/mapas: the server of one map, its trainers and their pokemons.
pub mod State
pub mod Requests
pub mod Scheduler
pub mod Deadlock
pub mod Tests
