-- ===== src/Examples.antt =====
-- Tests of the model, and each theorem at a concrete input.
mod Fixture
mod Containers
mod Supervision
mod Scheduling
mod Eventing
mod Caching
mod Tracing
mod Locking
mod Ranges
mod Storing
mod Seeding
