-- ===== src/Tests.antt =====
-- The theorems at concrete inputs.
mod Wire
mod Query
mod Small
mod Index
mod Select
mod Bundle
mod Client
mod Docs
mod Handler
mod Lifecycle
mod Server
