-- ===== src/Runs.antt =====
-- Concrete runs, and the theorems at concrete inputs.
mod Elements
mod Messages
mod Storage
mod Agreements
mod Sockets
mod Pools
mod Sessions
mod Drafts
mod Threads
mod Releases
