-- ===== src/Handshake.antt =====
-- src/tls/handshake.cpp: handshake messages, the deframer, and the messages of the server's flight.
pub mod Message
pub mod Deframer
pub mod Finished
pub mod Flight
