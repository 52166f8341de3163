-- ===== src/Cpu.antt =====
-- tp-2016-1c-SO-2016-1C/cpu: the primitives of AnSISOP and the PCB that the CPU gets and gives back.
pub mod State
pub mod Messages
pub mod Pcb
pub mod Memory
pub mod Primitives
pub mod Run
mod Tests
