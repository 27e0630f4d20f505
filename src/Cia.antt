-- ===== src/Cia.antt =====
-- The 8520 CIAs (src/cia): `State` has the chip's state, the other modules its parts.
pub mod State
pub mod Irq
pub mod Serial
pub mod Timers
pub mod TimerRegisters
pub mod Tod
pub mod Ports
pub mod Chip
pub mod Line
pub mod Board
mod Tests
