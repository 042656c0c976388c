-- ===== src/Bridge/Topics.antt =====
-- The configuration part of `main` in src/bridge_node.cpp: the host map and the two topic tables.
use swarm_ros_bridge.Common.{
  ℕ, ℤ, pos, Bytes, codes, bytes_eq, Bool, true, false, ◌&&◌, ◌||◌, Option, none, some, List, [],
  ◌∷◌, ◌++◌, if◌then◌else◌, ltb, length, leb_ℤ, ◌≡◌,
}
use swarm_ros_bridge.Double.{Double, lt, nought}
use swarm_ros_bridge.Topic.{TopicInfo}
use swarm_ros_bridge.Config.{XmlRpc, get_optional_bitrate_param, get_optional_string_param}
use swarm_ros_bridge.Bridge.MsgTypes.{sub_max}

-- How a part of `main` ends: it goes on, or the process ends with a status, or it aborts, by an
-- exception that nothing catches or by an assertion that fails.
pub data Startup {ℓ} (A : Type ℓ) : Type ℓ where
  go : A → Startup A
  leaves : ℕ → Startup A
  aborts : Startup A

infixl 5 ◌>>=◌
abbrev pub ◌>>=◌ {ℓ κ} : {A : Type ℓ} {B : Type κ} → Startup A → (A → Startup B) → Startup B
go a >>= f = f a
leaves n >>= f = leaves n
aborts >>= f = aborts

-- exit(1) in a parameter reader.
abbrev pub or_exit {ℓ} : {A : Type ℓ} → Option A → Startup A
or_exit none = leaves 1
or_exit (some a) = go a

pub go-inj {ℓ} : {A : Type ℓ} (a b : A) → go a ≡ go b → a ≡ b
go-inj a b e = cc

pub exited {ℓ} : {A : Type ℓ} (o : Option A) (a : A) → or_exit o ≡ go a → o ≡ some a
exited none a e = cc
exited (some b) a e = cc

-- `ip_map`: written by `[]=`, and read by `[]`, which makes an empty entry of a missing name.
abbrev pub IpMap : Type 0
IpMap = List (Bytes × Bytes)

unfoldable pub set_ip : Bytes → Bytes → IpMap → IpMap
set_ip k v [] = (k, v) ∷ []
set_ip k v ((j, u) ∷ m) = if bytes_eq j k then (j, v) ∷ m else (j, u) ∷ set_ip k v m

unfoldable pub ip_of : Bytes → IpMap → Bytes × IpMap
ip_of k [] = ([], (k, []) ∷ [])
ip_of k ((j, u) ∷ m) =
    let (v, m') = ip_of k m in if bytes_eq j k then (u, (j, u) ∷ m) else (v, (j, u) ∷ m')

-- ROS_ASSERT, in a build that has it.
abbrev pub ros_assert : Bool → Startup (Unit {0})
ros_assert true = go tt
ros_assert false = aborts

-- `srcPorts.find(srcPort) != end`
abbrev pub eq_ℤ : ℤ → ℤ → Bool
eq_ℤ a b = leb_ℤ a b && leb_ℤ b a

unfoldable pub has_port : ℤ → List ℤ → Bool
has_port p [] = false
has_port p (q ∷ qs) = eq_ℤ q p || has_port p qs

module _ {W : Type 0} ⦃d : Double W⦄ (x : XmlRpc W) where
  open x use {Value, is_array, is_struct, converts_int, converts_string, as_int, as_string, member}

  -- The conversions to std::string and int, which throw on another type.
  abbrev pub read_string : Value → Startup Bytes
  read_string v = if converts_string v then go (as_string v) else aborts

  abbrev pub read_int : Value → Startup ℤ
  read_int v = if converts_int v then go (as_int v) else aborts

  abbrev pub topic_of : Bytes → Bytes → ℤ → W → Bytes → ℤ → TopicInfo W
  topic_of name msg_type max_freq max_bitrate fault_policy port = record {
    name = name;
    msg_type = msg_type;
    max_freq = max_freq;
    max_bitrate = max_bitrate;
    fault_policy = fault_policy;
    ip = [];
    port = port;
  }

  -- What the two loops have built: the map, the topics so far, and the ports seen.
  pub record Tables : Type 0 where
    pub ip_map : IpMap
    pub topics : List (TopicInfo W)
    pub ports : List ℤ

  -- `topic.name.at(0)` throws on an empty name.
  abbrev pub named : Bytes → Tables → Startup Tables
  named [] t = aborts
  named (c ∷ name) t = go t

  -- The tables with a new entry, its host looked up by its name.
  abbrev pub add_topic : TopicInfo W → Bytes × IpMap → Tables → Tables
  add_topic topic (ip, ip_map) t = record {
    ip_map = ip_map;
    topics = t.topics ++ (record topic { ip = ip }) ∷ [];
    ports = t.ports ++ topic.port ∷ [];
  }

  -- One round of the loop over send_topics.
  unfoldable pub read_send_topic : Value → Tables → Startup Tables
  unfolding ip_of has_port
  read_send_topic v t = do
    asserted ← ros_assert (is_struct v)
    topic_name ← read_string (member v (codes "topic_name"))
    msg_type ← read_string (member v (codes "msg_type"))
    max_freq ← read_int (member v (codes "max_freq"))
    max_bitrate ← or_exit (get_optional_bitrate_param x v (codes "max_bitrate") nought)
    fault_policy ← or_exit (get_optional_string_param x v (codes "fault_policy") (codes "drop"))
    if lt max_bitrate nought then leaves 3 else do
      host ← read_string (member v (codes "srcIP"))
      port ← read_int (member v (codes "srcPort"))
      let topic = topic_of topic_name msg_type max_freq max_bitrate fault_policy port
      if has_port port t.ports
          then leaves 3
          else named topic_name (add_topic topic (ip_of host t.ip_map) t)

  -- One round of the loop over recv_topics: no frequency, no bitrate, no check of the port.
  unfoldable pub read_recv_topic : Value → Tables → Startup Tables
  unfolding ip_of
  read_recv_topic v t = do
    asserted ← ros_assert (is_struct v)
    topic_name ← read_string (member v (codes "topic_name"))
    msg_type ← read_string (member v (codes "msg_type"))
    fault_policy ← or_exit (get_optional_string_param x v (codes "fault_policy") (codes "drop"))
    host ← read_string (member v (codes "srcIP"))
    port ← read_int (member v (codes "srcPort"))
    let topic = topic_of topic_name msg_type (pos 0) nought fault_policy port
    named topic_name (add_topic topic (ip_of host t.ip_map) t)

  unfoldable pub read_topics :
      (Value → Tables → Startup Tables) → List Value → Tables → Startup Tables
  read_topics read [] t = go t
  read_topics read (v ∷ vs) t = do t' ← read v t; read_topics read vs t'

  -- The entries of a table; a table that the configuration lacks is empty.
  abbrev pub or_empty : Option Value → List Value
  or_empty none = []
  or_empty (some v) = x.elements v

  abbrev pub is_table : Option Value → Bool
  is_table none = true
  is_table (some v) = is_array v

  -- The loop over the IP section.
  unfoldable pub read_hosts : List (Bytes × Value) → IpMap → Startup IpMap
  unfolding set_ip
  read_hosts [] m = go m
  read_hosts ((host_name, host) ∷ hs) m = do
    host_ip ← read_string host
    read_hosts hs (set_ip host_name host_ip m)

  -- The loops, from the IP section on.
  unfoldable pub read_tables :
      List (Bytes × Value)
      → List Value
      → List Value
      → Startup (List (TopicInfo W) × List (TopicInfo W))
  unfolding read_hosts read_send_topic read_recv_topic read_topics
  read_tables hosts send_topics recv_topics = do
    ip_map ← read_hosts hosts []
    sends ←
        read_topics read_send_topic send_topics
          (record { ip_map = ip_map; topics = []; ports = [] })
    recvs ←
        read_topics read_recv_topic recv_topics
          (record { ip_map = sends.ip_map; topics = []; ports = [] })
    go (sends.topics, recvs.topics)

  -- From the three parameters of the node to its topics: send topics, then receive topics. The IP
  -- section is a struct, given by its members.
  unfoldable pub configure :
      Option (List (Bytes × Value))
      → Option Value
      → Option Value
      → Startup (List (TopicInfo W) × List (TopicInfo W))
  unfolding read_tables
  configure none send_topics recv_topics = leaves 1
  configure (some hosts) send_topics recv_topics = do
    send_array ← ros_assert (is_table send_topics)
    recv_array ← ros_assert (is_table recv_topics)
    if ltb sub_max (length (or_empty send_topics))
        then leaves 2
        else read_tables hosts (or_empty send_topics) (or_empty recv_topics)
