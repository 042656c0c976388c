-- ===== src/Node/Status.antt =====
-- Every way in which the process of the bridge node can end.
use swarm_ros_bridge.Common.{
  ℕ, ◌≤◌, Bytes, true, false, Option, List, length, if◌then◌else◌, ◌==◌, ◌≡◌,
}
use swarm_ros_bridge.Double.{Double}
use swarm_ros_bridge.Topic.{TopicInfo}
use swarm_ros_bridge.World.{World}
use swarm_ros_bridge.Config.{XmlRpc}
use swarm_ros_bridge.Bridge.Topics.{go, leaves, aborts, configure, or_empty}
use swarm_ros_bridge.Node.{Node, Params, Surroundings}
use swarm_ros_bridge.Node.Start.{set_up, start_server}
use swarm_ros_bridge.Node.Stop.{End, exits_with, terminates}

module _ {W T : Type 0} ⦃d : Double W⦄ (x : XmlRpc W) (y : Surroundings T) (p : Params W) where
  -- How a process ends, and why.
  pub data Ending (hosts : Option (List (Bytes × x.Value))) (sends recvs : Option x.Value) (e : End)
      : Type 0 where
    refused :
        (status : ℕ)
        → configure x hosts sends recvs ≡ leaves status
        → 1 ≤ status
        → status ≤ 3
        → e ≡ exits_with status
        → Ending hosts sends recvs e
    aborted : configure x hosts sends recvs ≡ aborts → e ≡ terminates → Ending hosts sends recvs e
    not_set_up :
        (ss rs : List (TopicInfo W))
        → configure x hosts sends recvs ≡ go (ss, rs)
        → set_up y p ss rs ≡ leaves 1
        → e ≡ exits_with 1
        → Ending hosts sends recvs e
    set_up_threw :
        (ss rs : List (TopicInfo W))
        → configure x hosts sends recvs ≡ go (ss, rs)
        → set_up y p ss rs ≡ aborts
        → e ≡ terminates
        → Ending hosts sends recvs e
    no_server :
        (ss rs : List (TopicInfo W)) (n u : Node W T)
        → configure x hosts sends recvs ≡ go (ss, rs)
        → set_up y p ss rs ≡ go n
        → start_server y p n ≡ (false, u)
        → e ≡ terminates
        → Ending hosts sends recvs e
    served :
        (ss rs : List (TopicInfo W)) (n u : Node W T)
        → configure x hosts sends recvs ≡ go (ss, rs)
        → set_up y p ss rs ≡ go n
        → start_server y p n ≡ (true, u)
        → e ≡ (if length (or_empty x recvs) == 0 then exits_with 0 else terminates)
        → Ending hosts sends recvs e
