-- ===== src/Fault.antt =====
-- The simulated node fault of src/sim_comm.cpp: its policies, its window, and its life cycle.
-- A reading of the steady clock is an argument, in nanoseconds.
pub mod Policy
use swarm_ros_bridge.Common.{
  ℕ, ◌+◌, Bool, true, false, ◌&&◌, ◌||◌, Option, none, some, List, [], ◌∷◌, map, replicate, length,
  ltb, leb, if◌then◌else◌, ◌>>=◌, not,
}
use swarm_ros_bridge.Double.{Double, le, nought}
use swarm_ros_bridge.Topic.{TopicInfo, FaultPolicy, Message}
use swarm_ros_bridge.World.{World, NodeFault}
use Policy.{parse_fault_policy}

-- `parse_fault_policy` for each topic: an invalid name ends the process.
unfoldable pub parse_policies : {W : Type 0} → List (TopicInfo W) → Option (List FaultPolicy)
parse_policies [] = some []
parse_policies (t ∷ ts) = do
  p ← parse_fault_policy t.fault_policy
  ps ← parse_policies ts
  some (p ∷ ps)

module _ {W : Type 0} ⦃d : Double W⦄ where
  unfoldable pub is_node_fault_active_locked : ℕ → NodeFault W → Bool
  is_node_fault_active_locked now f = f.active && ltb now f.until

  -- Parses every policy, makes the buffers, and starts the monitor thread.
  unfoldable pub initialize_node_fault_control : Bool → World W → Option (World W)
  unfolding parse_policies
  initialize_node_fault_control callback w = do
    sends ← parse_policies w.send_topics
    recvs ← parse_policies w.recv_topics
    some (record w {
      fault = record w.fault {
        thread_running = true;
        joinable = true;
        publish_callback = callback;
        send_policies = sends;
        recv_policies = recvs;
        send_buffers = replicate (length w.send_topics) [];
        recv_buffers = replicate (length w.recv_topics) [];
      };
    })

  unfoldable pub start_node_fault : ℕ → W → World W → World W
  start_node_fault now duration_sec w =
      if le duration_sec nought then w else if not w.fault.thread_running then w else record w {
        fault = record w.fault {
          active = true;
          duration_sec = duration_sec;
          until = now + d.to_nanos duration_sec;
          send_buffers = map (λ _. []) w.fault.send_buffers;
          recv_buffers = map (λ _. []) w.fault.recv_buffers;
        };
      }

  unfoldable pub is_node_fault_busy : World W → Bool
  is_node_fault_busy w = w.fault.active || w.fault.recovering

  -- The second part is the detached thread: the delay that it sleeps, and then its fault's length.
  unfoldable pub schedule_node_fault : ℕ → W → W → World W → World W × Option (W × W)
  unfolding start_node_fault
  schedule_node_fault now start_after_sec duration_sec w =
      if le start_after_sec nought
      then (start_node_fault now duration_sec w, none)
      else (w, some (start_after_sec, duration_sec))

  -- Ends the monitor: it is woken, and joined if it was started.
  unfoldable pub stop_node_fault_control : World W → World W
  stop_node_fault_control w = record w {
    fault = record w.fault {
      thread_running = false;
      joinable = false;
      active = false;
      recovering = false;
      duration_sec = nought;
    };
  }
