-- ===== src/Validator.antt =====
-- core/engine/plugin_validator.py: `PluginValidator`, with a child for each part of the class.
pub mod Data
pub mod Blocks
pub mod Dependencies
pub mod States
pub mod Plugin
pub mod Reachable
pub mod Unreachable
pub mod Accepted
pub mod DataErrors
pub mod Parsable
pub mod Parts
pub mod Declared
pub mod Promise
