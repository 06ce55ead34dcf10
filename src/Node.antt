-- ===== src/Node.antt =====
-- h9d/node.h, h9d/node.cc: a node of the bus, its registers and the access to them.
pub mod Registers
pub mod Description
pub mod Exceptions
pub mod Access
pub mod Asks
pub mod Bound
pub mod Broadcast
pub mod Values
pub mod Refusals
pub mod Text
