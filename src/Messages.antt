-- ===== src/Messages.antt =====
-- lib/messages.js: the messages of the DHT over the package compact-encoding, which is a parameter.
pub mod Encoding
pub mod Flags
pub mod Handshake
pub mod Records
pub mod Payload
pub mod Reads
pub mod Tests
