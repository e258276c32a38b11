-- ===== src/Tests.antt =====
-- Tests, and the theorems at concrete inputs.
pub mod Lists
mod Packets
pub mod Querying
mod Running
pub mod Storing
mod Commanding
mod Firewalls
mod Dispatching
mod Looking
mod Policies
mod Traffic
pub mod Sniffing
mod Requests
mod Events
mod Plugging
mod Watching
