-- ===== src/Protocol/RoundTrip.antt =====
-- The parser on the bytes of the serializer.
pub mod Within
pub mod Extract
pub mod Fields
pub mod Typed
pub mod Message
