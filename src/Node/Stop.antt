-- ===== src/Node/Stop.antt =====
-- `main` of src/bridge_node.cpp after `ros::spin`: `stop_send`, `stop_recv`, and the end of the process.
use swarm_ros_bridge.Common.{
  ℕ, zero, suc, ◌+◌, Bool, false, ◌||◌, List, [], ◌∷◌, if◌then◌else◌, length, modify,
}
use swarm_ros_bridge.Double.{Double}
use swarm_ros_bridge.Fault.{stop_node_fault_control}
use swarm_ros_bridge.SendThread.{stop_send_bitrate_control}
use swarm_ros_bridge.Control.Server.{stop_control_server}
use swarm_ros_bridge.Bridge.Wire.{Receiver}
use swarm_ros_bridge.Node.{Socket, Handle, Node}

-- How the process ends once `main` has returned or called exit: with the status, or, if a
-- std::thread that is destroyed can still be joined, in std::terminate.
pub data End : Type 0 where
  exits_with : ℕ → End
  terminates : End

abbrev pub close : Socket → Socket
close s = record s { is_open = false }

abbrev pub lower : Receiver → Receiver
lower r = record r { thread_flag = false }

abbrev pub shut : {A : Type 0} → Handle A → Handle A
shut h = record h { is_up = false }

abbrev pub any : {A : Type 0} → (A → Bool) → List A → Bool
any p [] = false
any p (a ∷ rest) = p a || any p rest

module _ {W T : Type 0} ⦃d : Double W⦄ where
  unfoldable pub stop_send : ℕ → Node W T → Node W T
  unfolding stop_send_bitrate_control
  stop_send i n = record n {
    topic_subs = modify n.topic_subs i shut;
    world = stop_send_bitrate_control i n.world;
    senders = modify n.senders i close;
  }

  -- The receive thread is told to stop, and not joined.
  unfoldable pub stop_recv : ℕ → Node W T → Node W T
  stop_recv i n = record n {
    recv_states = modify n.recv_states i lower;
    receivers = modify n.receivers i close;
    topic_pubs = modify n.topic_pubs i shut;
  }

  -- `for (i = 0; i < count; ++i) stop(i)`, with `left` rounds to go.
  unfoldable pub stop_each : (ℕ → Node W T → Node W T) → ℕ → ℕ → Node W T → Node W T
  stop_each stop i zero n = n
  stop_each stop i (suc left) n = stop_each stop (i + 1) left (stop i n)

  unfoldable pub shut_down : Node W T → Node W T
  unfolding stop_each
  shut_down n =
      let n' = record n {
        server = stop_control_server n.server;
        world = stop_node_fault_control n.world;
      } in
      stop_each stop_recv 0 (length n.world.recv_topics)
        (stop_each stop_send 0 (length n.world.send_topics) n')

  -- Is a thread left that has not been joined?
  unfoldable pub has_joinable : Node W T → Bool
  has_joinable n =
      n.world.fault.joinable
      || (any (λ c. c.joinable) n.world.controls
          || (n.server.joinable || any (λ b. b) n.recv_threads))

  unfoldable pub process_end : ℕ → Node W T → End
  unfolding has_joinable
  process_end status n = if has_joinable n then terminates else exits_with status
