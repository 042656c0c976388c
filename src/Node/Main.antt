-- ===== src/Node/Main.antt =====
-- The whole of `main` in src/bridge_node.cpp, from the parameters of the node to the end of its process.
use swarm_ros_bridge.Common.{Bytes, Bool, Option, List, if◌then◌else◌, ◌≡◌}
use swarm_ros_bridge.Double.{Double}
use swarm_ros_bridge.Topic.{TopicInfo}
use swarm_ros_bridge.World.{World}
use swarm_ros_bridge.Config.{XmlRpc}
use swarm_ros_bridge.Bridge.Topics.{Startup, go, leaves, aborts, configure}
use swarm_ros_bridge.Threads.{System}
use swarm_ros_bridge.Threads.Step.{Reach}
use swarm_ros_bridge.Threads.Unguarded.{Anytime}
use swarm_ros_bridge.Node.{Node, Params, Surroundings}
use swarm_ros_bridge.Node.Start.{set_up, start_server}
use swarm_ros_bridge.Node.Stop.{End, exits_with, terminates, shut_down, process_end}
use swarm_ros_bridge.Node.Ends.{with_world}

-- An exit before there are threads ends the process with its status; an exception that nothing
-- catches, in std::terminate, and an assertion that fails, end it by an abort.
abbrev pub end_of {ℓ} : {A : Type ℓ} → Startup A → (A → End) → End
end_of (go a) rest = rest a
end_of (leaves status) rest = exits_with status
end_of aborts rest = terminates

-- What `ros::spin` leaves of a node: what the steps of its threads make of it, faults started at any
-- time among them.
pub record IsSpin {W T : Type 0} ⦃d : Double W⦄ (spin : Node W T → World W) : Type 0 where
  pub first : Node W T → System W
  pub last : Node W T → System W
  pub starts : (u : Node W T) → (first u).world ≡ u.world
  pub ends : (u : Node W T) → (last u).world ≡ spin u
  pub runs : (u : Node W T) → Reach Anytime (first u) (last u)

module _ {W T : Type 0} ⦃d : Double W⦄ (x : XmlRpc W) (y : Surroundings T) (p : Params W)
    (spin : Node W T → World W) where
  -- From `ros::spin` to the return.
  unfoldable pub serve : Bool × Node W T → End
  unfolding shut_down process_end
  serve (ok, u) = if ok then process_end 0 (shut_down (with_world u (spin u))) else process_end 4 u

  unfoldable pub run_node : List (TopicInfo W) × List (TopicInfo W) → End
  unfolding set_up start_server serve
  run_node (send_topics, recv_topics) =
      end_of (set_up y p send_topics recv_topics) (λ n. serve (start_server y p n))

  unfoldable pub main : Option (List (Bytes × x.Value)) → Option x.Value → Option x.Value → End
  unfolding configure run_node
  main hosts send_topics recv_topics = end_of (configure x hosts send_topics recv_topics) run_node
