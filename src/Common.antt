-- ===== src/Common.antt =====
-- lib/borderrouter/src/common: the TLV format.
pub mod Tlv
