-- ===== src/Mutation.antt =====
-- core/engine/mutators.py and core/engine/mutation_primitives.py: the mutations of bytes and of
-- integers.
pub mod Draws
pub mod Bytes
pub mod Havoc
pub mod Yields
pub mod Kept
pub mod Engine
pub mod Growth
pub mod Returns
pub mod Enumerated
pub mod Primitives
pub mod Fitting
