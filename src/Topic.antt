-- ===== src/Topic.antt =====
-- include/bridge_state.hpp and the types of include/sim_comm.hpp: what a topic stream is configured
-- with, a serialized message, and the policy for a simulated fault.
use swarm_ros_bridge.Common.{ℕ, ℤ, Bytes, length, ◌≡◌}

pub record TopicInfo (W : Type 0) : Type 0 where
  pub name : Bytes
  pub msg_type : Bytes
  pub max_freq : ℤ
  pub max_bitrate : W
  pub fault_policy : Bytes
  pub ip : Bytes
  pub port : ℤ

pub data FaultPolicy : Type 0 where
  drop buffer latest : FaultPolicy

pub record Message : Type 0 where
  pub data_len : ℕ
  pub payload : Bytes

-- The announced length is that of the payload.
abbrev pub IsMessage : Message → Type 0
IsMessage m = m.data_len ≡ length m.payload
