-- ===== src/Qc.antt =====
-- src/swelter/qc.py: quality control, which labels readings and never drops one.
pub mod Flags
pub mod Apply
pub mod Twins
pub mod Gaps
pub mod Coverage
pub mod Health
pub mod Ages
mod Examples
