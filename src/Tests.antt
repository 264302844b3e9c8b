-- ===== src/Tests.antt =====
-- The witnesses of the theorems, by component, at a server in memory.
mod Common
mod Rings
mod Bots
mod Heartbeats
mod Events
mod Streams
mod Probes
mod Tools
mod Sessions
mod Accounts
mod Admin
mod Migrations
mod Requests
mod Queues
mod Databases
mod Removals
mod Uploads
mod Settings
mod Workers
mod Handlers
mod Sockets
mod Loads
