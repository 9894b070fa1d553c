-- ===== src/Comet.antt =====
-- The CPU of the COMET II computer, comet2/comet2_cpu/comet2_cpu.v, and its instruction set.
pub mod Codes
pub mod Words
pub mod Registers
pub mod Perform
pub mod Cpu
pub mod Machine
pub mod Addresses
pub mod Digits
pub mod Bounds
pub mod Widths
pub mod Devices
pub mod Signed
