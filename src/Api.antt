-- ===== src/Api.antt =====
-- h9d/api.h and api.cc: the methods of the daemon that its clients call, over JSON-RPC. What the
-- messages of the exceptions say is left out.
pub mod Types
pub mod Nodes
pub mod Session
pub mod Devices
pub mod Call
pub mod Access
pub mod Endings
