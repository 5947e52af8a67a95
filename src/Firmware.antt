-- ===== src/Firmware.antt =====
-- The sensor node's firmware, firmware/src: the two sensor drivers and the buffer on flash.
pub mod Sht31
pub mod Pms5003
pub mod Buffer
mod Examples
