-- ===== src/RawNode.antt =====
-- h9d/raw_node.h and raw_node.cc: requests to a node and the frames that answer them.
-- Promise.antt has the promises that wait for a frame, Delivery.antt what a promise receives,
-- Request.antt the requests and Replies.antt what they return.
pub mod Promise
pub mod Delivery
pub mod Request
pub mod Replies
pub mod Reset
pub mod NodeInfo
