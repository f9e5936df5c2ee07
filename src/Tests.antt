-- ===== src/Tests.antt =====
-- Runs at concrete inputs, and the theorems applied to them.
mod Planning
mod Relaying
mod Values
mod Watching
mod Draining
mod Moving
mod Reserving
mod Polling
mod Serving
mod Signing
mod Indexing
mod Controlling
mod Accounting
