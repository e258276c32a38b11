-- ===== src/Commands.antt =====
-- The command handlers and the event handlers, on the database, the firewall bridge and the bus.
pub mod World
pub mod Handlers
pub mod Firewall
pub mod Requests
pub mod Blocking
pub mod Deciding
pub mod Resolving
