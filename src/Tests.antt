-- ===== src/Tests.antt =====
-- Concrete vertices, messages, pools and peers, to which the theorems are applied.
pub mod Data
pub mod Wires
pub mod Peers
pub mod Servers
pub mod Pools
pub mod Requests
pub mod Turns
pub mod Locks
pub mod Handshake
pub mod Blame
pub mod Setup
pub mod Processes
pub mod Loop
pub mod Scripts
pub mod Advance
