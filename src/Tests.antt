-- ===== src/Tests.antt =====
-- The theorems at concrete inputs.
mod Samples
mod Messages
mod Values
mod Sizes
mod Machines
mod Navigation
mod Planning
mod Beats
mod Plugins
mod Mutations
mod Choices
