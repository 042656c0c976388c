-- ===== src/World.antt =====
-- The state that src/sim_comm.cpp keeps beside the topic tables of include/bridge_state.hpp.
-- Its parallel vectors are lists of records, one entry for a topic; what the bridge hands to ZMQ,
-- to ROS and to the scheduler is a log of events, oldest first.
use swarm_ros_bridge.Common.{
  ℕ, ◌^◌, Bool, false, List, [], ◌∷◌, ◌++◌, ◌==◌, if◌then◌else◌, get_or, pos,
}
use swarm_ros_bridge.Double.{Double, nought}
use swarm_ros_bridge.Topic.{TopicInfo, FaultPolicy, drop, Message}

-- `size_t` wraps here.
abbrev pub size_range : ℕ
size_range = 2 ^ 64

-- One entry of send_thread_flags, send_threads (is it joinable), send_queues and send_queue_bytes.
pub record SendControl : Type 0 where
  pub thread_flag : Bool
  pub joinable : Bool
  pub queue : List Message
  pub queue_bytes : ℕ

-- The fields that node_fault_mutex protects, and the thread and callback beside them.
pub record NodeFault (W : Type 0) : Type 0 where
  pub thread_running : Bool
  pub joinable : Bool
  pub active : Bool
  pub recovering : Bool
  pub duration_sec : W
  pub until : ℕ
  pub publish_callback : Bool
  pub send_policies : List FaultPolicy
  pub recv_policies : List FaultPolicy
  pub send_buffers : List (List Message)
  pub recv_buffers : List (List Message)

pub data Event (W : Type 0) : Type 0 where
  zmq_sent : ℕ → Message → Event W
  published : ℕ → Message → Event W
  slept : W → Event W

pub record World (W : Type 0) : Type 0 where
  pub send_topics : List (TopicInfo W)
  pub recv_topics : List (TopicInfo W)
  pub controls : List SendControl
  pub fault : NodeFault W
  pub events : List (Event W)

abbrev pub no_control : SendControl
no_control = record { thread_flag = false; joinable = false; queue = []; queue_bytes = 0 }

module _ {W : Type 0} where
  abbrev pub log : Event W → World W → World W
  log e w = record w { events = w.events ++ e ∷ [] }

  abbrev pub control : World W → ℕ → SendControl
  control w i = get_or w.controls i no_control

  abbrev pub send_policy : NodeFault W → ℕ → FaultPolicy
  send_policy f i = get_or f.send_policies i drop

  abbrev pub recv_policy : NodeFault W → ℕ → FaultPolicy
  recv_policy f i = get_or f.recv_policies i drop

  -- What the log shows of one topic: the messages on its PUB socket, and on its ROS topic.
  abbrev pub sent_on : ℕ → List (Event W) → List Message
  sent_on i [] = []
  sent_on i (zmq_sent j m ∷ es) = if j == i then m ∷ sent_on i es else sent_on i es
  sent_on i (published j m ∷ es) = sent_on i es
  sent_on i (slept t ∷ es) = sent_on i es

  abbrev pub published_on : ℕ → List (Event W) → List Message
  published_on i [] = []
  published_on i (published j m ∷ es) = if j == i then m ∷ published_on i es else published_on i es
  published_on i (zmq_sent j m ∷ es) = published_on i es
  published_on i (slept t ∷ es) = published_on i es

module _ {W : Type 0} ⦃d : Double W⦄ where
  abbrev pub no_topic : TopicInfo W
  no_topic = record {
    name = [];
    msg_type = [];
    max_freq = pos 0;
    max_bitrate = nought;
    fault_policy = [];
    ip = [];
    port = pos 0;
  }

  abbrev pub send_topic : World W → ℕ → TopicInfo W
  send_topic w i = get_or w.send_topics i no_topic

  -- A topic with a positive `max_bitrate` goes through its queue.
  abbrev pub is_limited : World W → ℕ → Bool
  is_limited w i = d.lt nought (send_topic w i).max_bitrate
