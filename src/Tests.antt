-- ===== src/Tests.antt =====
-- The theorems at concrete data.
mod Orders
mod Containers
mod Packets
mod Server
mod Strings
mod Handlers
mod Requests
mod Threads
mod Routes
mod Nodes
mod Connections
mod Disk
mod Transfers
