-- ===== src/Tests/Data.antt =====
-- Test data: a bridge whose doubles are millionths.
use swarm_ros_bridge.Common.{ℕ, pos, codes, Bool, true, false, Bytes, List, [], ◌∷◌, ◌*◌}
use swarm_ros_bridge.Double.Micros.{Micros}
use swarm_ros_bridge.Topic.{TopicInfo, Message, buffer, latest}
use swarm_ros_bridge.World.{World, NodeFault, SendControl}
use swarm_ros_bridge.Dispatch.{Call, sends, receives}

abbrev pub msg : ℕ → Message
msg b = record { data_len = 1; payload = b ∷ [] }

abbrev pub seconds : ℕ → Micros
seconds n = n * 1_000_000

-- Nanoseconds on the steady clock.
abbrev pub at : ℕ → ℕ
at s = s * 1_000_000_000

abbrev pub topic : Bytes → Micros → Bytes → TopicInfo Micros
topic name max_bitrate policy = record {
  name = name;
  msg_type = codes "std_msgs/String";
  max_freq = pos 10;
  max_bitrate = max_bitrate;
  fault_policy = policy;
  ip = codes "10.0.0.1";
  port = pos 3001;
}

abbrev pub control_of : List Message → ℕ → SendControl
control_of q n = record { thread_flag = true; joinable = true; queue = q; queue_bytes = n }

abbrev pub fault_of : Bool → ℕ → List (List Message) → List (List Message) → NodeFault Micros
fault_of active until held_sends held_recvs = record {
  thread_running = true;
  joinable = true;
  active = active;
  recovering = false;
  duration_sec = seconds 2;
  until = until;
  publish_callback = true;
  send_policies = buffer ∷ latest ∷ [];
  recv_policies = buffer ∷ [];
  send_buffers = held_sends;
  recv_buffers = held_recvs;
}

abbrev pub world_of : NodeFault Micros → List Message → ℕ → World Micros
world_of fault q n = record {
  send_topics =
      topic (codes "/free") 0 (codes "buffer")
      ∷ topic (codes "/slow") (seconds 8000) (codes "latest")
      ∷ [];
  recv_topics = topic (codes "/in") 0 (codes "buffer") ∷ [];
  controls = control_of [] 0 ∷ control_of q n ∷ [];
  fault = fault;
  events = [];
}

-- No fault yet; and a fault until second 5, with messages held.
abbrev pub idle_world : World Micros
idle_world = world_of (fault_of false 0 ([] ∷ [] ∷ []) ([] ∷ [])) (msg 1 ∷ msg 2 ∷ []) 2

abbrev pub held_world : World Micros
held_world =
    world_of (fault_of true (at 5) ((msg 3 ∷ []) ∷ [] ∷ []) ((msg 4 ∷ []) ∷ [])) (msg 1 ∷ []) 1

-- Two messages each way in a window from second 3 to second 5.
abbrev pub window_calls : List Call
window_calls =
    sends 0 (msg 5) (at 3) (at 3) (at 3) (at 3)
    ∷ receives 0 (msg 6) (at 4) (at 4)
    ∷ sends 0 (msg 7) (at 4) (at 4) (at 4) (at 4)
    ∷ receives 0 (msg 8) (at 4) (at 4)
    ∷ []
