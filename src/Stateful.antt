-- ===== src/Stateful.antt =====
-- core/engine/stateful_fuzzer.py and core/engine/protocol_utils.py: the protocol's state machine as the
-- fuzzer follows it.
pub mod Commands
pub mod Session
pub mod Coverage
pub mod Choice
pub mod Chosen
pub mod Found
pub mod Justified
pub mod Counting
pub mod Departure
