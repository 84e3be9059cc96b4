-- ===== src/GridConnect.antt =====
-- GridConnectPicoW/CBUSGridConnect.cpp: the text form of CAN frames for TCP clients, and the TCP server that speaks it.
pub mod Hex
pub mod Codec
pub mod Server
