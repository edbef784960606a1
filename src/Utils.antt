-- ===== src/Utils.antt =====
-- lib/borderrouter/src/utils: the conversions, the checksum and the steering data.
pub mod Hex
pub mod Crc16
pub mod SteeringData
