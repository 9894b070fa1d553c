-- ===== src/Tests.antt =====
-- Runs of the models on small inputs, and the theorems at concrete devices and inputs.
mod Devices
mod Transfers
mod Hosts
mod Commands
pub mod Talk
mod Images
mod Typing
mod Board
pub mod Console
pub mod Startup
mod Capturing
mod Riscvs
mod Serial
mod Scripts
mod Cpu
mod Ram
mod Timer
pub mod Wire
mod Whole
mod Captured
