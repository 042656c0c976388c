-- ===== src/Node.antt =====
-- `main` of src/bridge_node.cpp from the topic tables on: what it makes, in its order, and how it takes
-- it down. ZMQ and ROS are outside: a socket is its address and whether it is open, a bind or a
-- connect succeeds or throws as a parameter says, and a thread is whether it can be joined.
pub mod Start
pub mod Stop
pub mod Sweep
pub mod Released
pub mod Advertised
pub mod Started
pub mod Running
pub mod Kept
pub mod Ends
pub mod Configured
pub mod Main
pub mod Leaves
pub mod Status
use swarm_ros_bridge.Common.{ℕ, ℤ, Bytes, Bool, Option, List}
use swarm_ros_bridge.World.{World}
use swarm_ros_bridge.Control.Server.{ControlServer}
use swarm_ros_bridge.Bridge.Frequency.{Period}
use swarm_ros_bridge.Bridge.Wire.{Receiver}
use swarm_ros_bridge.Bridge.MsgTypes.{Subscription, Publication}

pub record Socket : Type 0 where
  pub endpoint : Bytes
  pub is_open : Bool

-- A ROS subscriber or publisher, until its `shutdown`.
pub record Handle (A : Type 0) : Type 0 where
  pub made_from : A
  pub is_up : Bool

-- The shared vectors of include/bridge_state.hpp, beside the states of src/sim_comm.cpp and
-- src/control_server.cpp. A delayed fault start is a detached thread: its delay and its length.
pub record Node (W T : Type 0) : Type 0 where
  pub world : World W
  pub senders : List Socket
  pub receivers : List Socket
  pub topic_subs : List (Handle Subscription)
  pub periods : List (Period T)
  pub topic_pubs : List (Handle Publication)
  pub delayed_start : Option (W × W)
  pub server : ControlServer
  pub recv_states : List Receiver
  pub recv_threads : List Bool

-- The parameters that `main` reads after the topic tables; `none` is one that is not set.
pub record Params (W : Type 0) : Type 0 where
  pub node_fault_duration : Option W
  pub node_fault_start_after : Option W
  pub control_enabled : Option Bool
  pub control_node_id : Option Bytes
  pub control_bind_ip : Option Bytes
  pub control_bind_port : Option ℤ
  pub control_token : Option Bytes
  pub node_name : Bytes

-- What the libraries do for it: whether a PUB socket binds and a SUB socket connects at an address,
-- whether the control server's socket binds, the ROS time when the topic of an index is subscribed
-- to, and the steady clock at the start of the first fault.
pub record Surroundings (T : Type 0) : Type 0 where
  pub binds : Bytes → Bool
  pub connects : Bytes → Bool
  pub control_binds : Bool
  pub ros_now : ℕ → T
  pub steady_now : ℕ
