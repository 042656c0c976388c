-- ===== src/Bridge.antt =====
-- src/bridge_node.cpp and include/ros_sub_pub.hpp: the node around the communication control.
pub mod Frequency
pub mod Wire
pub mod Callbacks
pub mod Pipeline
pub mod MsgTypes
pub mod Topics
pub mod Ports
pub mod Endpoint
