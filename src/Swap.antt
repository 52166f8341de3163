-- ===== src/Swap.antt =====
-- tp-2016-1c-SO-2016-1C/Swap/src/Swap.c: the process that keeps the pages of the programs in a file.
pub mod State
pub mod BitMap
pub mod Compact
pub mod Orders
pub mod Tests
