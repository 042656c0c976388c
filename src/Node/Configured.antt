-- ===== src/Node/Configured.antt =====
-- The sockets of a node whose topic tables come of an accepted configuration.
use swarm_ros_bridge.Common.{
  Bytes, Option, List, [], ◌∷◌, map, length, length-map, All, ◌≤◌, ◌≡◌, ◌≢◌, sym, ap, ◌∙◌, subst,
}
use swarm_ros_bridge.Double.{Double}
use swarm_ros_bridge.Topic.{TopicInfo}
use swarm_ros_bridge.Config.{XmlRpc}
use swarm_ros_bridge.Bridge.MsgTypes.{sub_max}
use swarm_ros_bridge.Bridge.Topics.{go, configure, or_empty}
use swarm_ros_bridge.Bridge.Ports.{DistinctPorts, configure-IsConfigured}
use swarm_ros_bridge.Bridge.Endpoint.{url, port_of, port_of-url, IsInt}
use swarm_ros_bridge.Node.{Socket, Node, Params, Surroundings}
use swarm_ros_bridge.Node.Start.{set_up}
use swarm_ros_bridge.Node.Started.{socket_of, set_up-IsSetUp}

-- No address twice.
abbrev pub DistinctEndpoints : List Socket → Type 0
DistinctEndpoints [] = Unit
DistinctEndpoints (s ∷ ss) = All (λ r. r.endpoint ≢ s.endpoint) ss × DistinctEndpoints ss

module _ {W : Type 0} where
  abbrev pub HasIntPort : TopicInfo W → Type 0
  HasIntPort t = IsInt t.port

  apart :
      (t : TopicInfo W) (ts : List (TopicInfo W))
      → IsInt t.port
      → All HasIntPort ts
      → All (λ q. q ≢ t.port) (map (λ u. u.port) ts)
      → All (λ (r : Socket). r.endpoint ≢ url t) (map socket_of ts)
  apart t [] h hs n = tt
  apart t (u ∷ ts) h (k, hs) (n, ns) =
      (λ e. n (sym (port_of-url u k) ∙ ap port_of e ∙ port_of-url t h), apart t ts h hs ns)

  distinct-map :
      (ts : List (TopicInfo W))
      → All HasIntPort ts
      → DistinctPorts (map (λ u. u.port) ts)
      → DistinctEndpoints (map socket_of ts)
  distinct-map [] h n = tt
  distinct-map (t ∷ ts) (h, hs) (n, ns) = (apart t ts h hs n, distinct-map ts hs ns)

module _ {W T : Type 0} ⦃d : Double W⦄ (x : XmlRpc W) where
  -- When the configuration is accepted, its send ports are ints and the node is set up, the node has
  -- bound one PUB socket for each configured send topic, at most 50, no two of them to one address,
  -- and connected one SUB socket for each configured receive topic.
  pub configure-set_up :
      (hosts : Option (List (Bytes × x.Value))) (sends recvs : Option x.Value) (y : Surroundings T)
      (p : Params W) (ss rs : List (TopicInfo W)) (n : Node W T)
      → configure x hosts sends recvs ≡ go (ss, rs)
      → All HasIntPort ss
      → set_up y p ss rs ≡ go n
      → (length n.senders ≡ length (or_empty x sends))
        × (length n.senders ≤ sub_max)
        × DistinctEndpoints n.senders
        × (length n.receivers ≡ length (or_empty x recvs))
  configure-set_up hosts sends recvs y p ss rs n e h f =
      let c = configure-IsConfigured x hosts sends recvs ss rs e in
      let i = set_up-IsSetUp y p ss rs n f in
      let long = ap length i.senders ∙ length-map socket_of ss in
      (
        long ∙ c.send_count,
        subst (λ k. k ≤ sub_max) (sym long) c.send_limit,
        subst DistinctEndpoints (sym i.senders) (distinct-map ss h c.distinct),
        ap length i.receivers ∙ length-map socket_of rs ∙ c.recv_count,
      )
