-- ===== src/Protocol.antt =====
-- core/engine/protocol_parser.py: `ProtocolParser`, with a child for each part of the class.
pub mod Model
pub mod Integers
pub mod BitString
pub mod Parse
pub mod Serialize
pub mod AutoFix
pub mod Checksum
pub mod Resolve
pub mod RoundTrip
