-- ===== src/Network.antt =====
-- networking.h and networking.cpp: messages on sockets, the server and the client.
pub mod Moves
pub mod Outcome
pub mod Message
pub mod Send
pub mod Receive
pub mod Quorum
pub mod Server
pub mod Calls
pub mod Client
pub mod Transfer
