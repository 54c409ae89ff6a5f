-- ===== src/Examples.antt =====
-- The theorems at concrete inputs.
mod Scripted
mod Reading
mod Writing
mod Receivers
mod Tree
mod Outboxes
mod Waiting
mod States
mod Runs
mod Exchanges
mod Endings
mod Beginnings
mod Sockets
mod Leaving
mod Subscribers
mod Tasks
