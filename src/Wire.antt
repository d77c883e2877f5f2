-- ===== src/Wire.antt =====
-- RPC.cpp: requests and responses as bytes.
pub mod Bytes
pub mod Request
pub mod Bodies
pub mod RoundTrip
pub mod Oversized
pub mod Overruns
pub mod Response
