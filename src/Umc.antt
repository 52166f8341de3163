-- ===== src/Umc.antt =====
-- tp-2016-1c-SO-2016-1C/umc: the memory that the programs use, in front of Swap.
pub mod Messages
pub mod Paging
pub mod State
pub mod Frames
pub mod Tlb
pub mod Tables
pub mod Memory
pub mod Swapping
pub mod Clock
pub mod Replace
pub mod Programs
pub mod Requests
mod Tests
