-- ===== src/Tests.antt =====
-- Runs of the model at concrete inputs, and its theorems at inputs that meet their conditions.
mod Batches
mod Antichains
mod Frontiers
mod Timestamps
mod Trackers
mod Builders
mod Activations
mod Slices
mod Messages
mod Permits
mod Queues
