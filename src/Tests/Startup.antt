-- ===== src/Tests/Startup.antt =====
-- The topic tables of a configuration with two send topics and one receive topic.
use swarm_ros_bridge.Common.{
  ℤ, pos, map, Bytes, codes, bytes_eq, Bool, true, false, some, List, [], ◌∷◌, ◌≡◌, refl,
  if◌then◌else◌,
}
use swarm_ros_bridge.Double.Micros.{Micros, micros_double}
use swarm_ros_bridge.Topic.{TopicInfo}
use swarm_ros_bridge.Text.{trim_copy}
use swarm_ros_bridge.Config.{
  XmlRpc, Kind, int_kind, string_kind, other_kind, get_optional_bitrate_param,
  get_optional_string_param, parse_bitrate_text,
}
use swarm_ros_bridge.Bridge.Topics.{
  go, configure, read_hosts, read_send_topic, read_recv_topic, read_topics, read_tables, set_ip,
  ip_of, has_port,
}
use swarm_ros_bridge.Bridge.Ports.{IsConfigured, configure-IsConfigured}
use swarm_ros_bridge.World.{World, SendControl}
use swarm_ros_bridge.Fault.Policy.{parse_fault_policy}
use swarm_ros_bridge.Fault.{
  initialize_node_fault_control, parse_policies, is_node_fault_active_locked,
}
use swarm_ros_bridge.Replay.{flush_expired_fault_if_needed}
use swarm_ros_bridge.SendQueue.{enqueue_send_message, max_queue_bytes}
use swarm_ros_bridge.SendThread.{initialize_send_bitrate_control}
use swarm_ros_bridge.Dispatch.{
  sends, run_call, dispatch_send_message, dispatch_send_message_after_fault, admit,
}
use swarm_ros_bridge.Aligned.{IsAligned}
use swarm_ros_bridge.Aligned.Reach.{Reachable, initialized, called, Reachable-IsAligned}
use swarm_ros_bridge.Tests.Data.{seconds, at, msg, idle_world}

-- The members of a struct that are numbers, and those that are texts.
abbrev pub Members : Type 0
Members = List (Bytes × ℤ) × List (Bytes × Bytes)

-- A value is a number, a text, a struct of those, or an array of structs.
pub data Xml : Type 0 where
  number : ℤ → Xml
  word : Bytes → Xml
  table : List (Bytes × ℤ) → List (Bytes × Bytes) → Xml
  array : List Members → Xml

abbrev kind_of : Xml → Kind
kind_of (number n) = int_kind
kind_of (word s) = string_kind
kind_of (table ns ws) = other_kind
kind_of (array vs) = other_kind

abbrev int_of : Xml → ℤ
int_of (number n) = n
int_of (word s) = pos 0
int_of (table ns ws) = pos 0
int_of (array vs) = pos 0

abbrev word_of : Xml → Bytes
word_of (number n) = []
word_of (word s) = s
word_of (table ns ws) = []
word_of (array vs) = []

abbrev word_in : Bytes → List (Bytes × Bytes) → Xml
word_in k [] = word []
word_in k ((j, s) ∷ ws) = if bytes_eq j k then word s else word_in k ws

abbrev value_in : Bytes → List (Bytes × ℤ) → List (Bytes × Bytes) → Xml
value_in k [] ws = word_in k ws
value_in k ((j, n) ∷ ns) ws = if bytes_eq j k then number n else value_in k ns ws

abbrev member_of : Xml → Bytes → Xml
member_of (number n) k = word []
member_of (word s) k = word []
member_of (table ns ws) k = value_in k ns ws
member_of (array vs) k = word []

abbrev has_word : Bytes → List (Bytes × Bytes) → Bool
has_word k [] = false
has_word k ((j, s) ∷ ws) = if bytes_eq j k then true else has_word k ws

abbrev has : Xml → Bytes → Bool
has (number n) k = false
has (word s) k = false
has (table ns ws) k = has_word k ws
has (array vs) k = false

abbrev is_number : Xml → Bool
is_number (number n) = true
is_number (word s) = false
is_number (table ns ws) = false
is_number (array vs) = false

abbrev is_word : Xml → Bool
is_word (number n) = false
is_word (word s) = true
is_word (table ns ws) = false
is_word (array vs) = false

abbrev is_struct_of : Xml → Bool
is_struct_of (number n) = false
is_struct_of (word s) = false
is_struct_of (table ns ws) = true
is_struct_of (array vs) = false

abbrev is_array_of : Xml → Bool
is_array_of (number n) = false
is_array_of (word s) = false
is_array_of (table ns ws) = false
is_array_of (array vs) = true

abbrev pub elements_of : Xml → List Xml
elements_of (number n) = []
elements_of (word s) = []
elements_of (table ns ws) = []
elements_of (array vs) = map (λ v. table v.0 v.1) vs

abbrev pub xml : XmlRpc Micros
xml = record {
  Value = Xml;
  get_type = kind_of;
  is_array = is_array_of;
  is_struct = is_struct_of;
  converts_int = is_number;
  converts_string = is_word;
  elements = elements_of;
  as_int = int_of;
  as_double = λ v. 0;
  as_string = word_of;
  has_member = has;
  member = member_of;
}

abbrev entry : Bytes → ℤ → List (Bytes × Bytes) → Members
entry name port more = (
  (codes "max_freq", pos 10) ∷ (codes "srcPort", port) ∷ [],
  (codes "topic_name", name)
      ∷ (codes "msg_type", codes "std_msgs/String")
      ∷ (codes "srcIP", codes "uav1")
      ∷ more,
)

abbrev pub hosts : List (Bytes × Xml)
hosts = (codes "uav1", word (codes "10.0.0.1")) ∷ []

abbrev pub sends_xml : List Members
sends_xml =
    entry (codes "/a") (pos 3001) []
    ∷ entry (codes "/b") (pos 3002)
        ((codes "max_bitrate", codes "8k") ∷ (codes "fault_policy", codes "latest") ∷ [])
    ∷ []

abbrev pub recvs_xml : List Members
recvs_xml = entry (codes "/c") (pos 3001) [] ∷ []

abbrev built : Bytes → ℤ → ℤ → Micros → Bytes → TopicInfo Micros
built name port freq bitrate policy = record {
  name = name;
  msg_type = codes "std_msgs/String";
  max_freq = freq;
  max_bitrate = bitrate;
  fault_policy = policy;
  ip = codes "10.0.0.1";
  port = port;
}

abbrev pub sends_built : List (TopicInfo Micros)
sends_built =
    built (codes "/a") (pos 3001) (pos 10) 0 (codes "drop")
    ∷ built (codes "/b") (pos 3002) (pos 10) (seconds 8000) (codes "latest")
    ∷ []

abbrev pub recvs_built : List (TopicInfo Micros)
recvs_built = built (codes "/c") (pos 3001) (pos 0) 0 (codes "drop") ∷ []

pub configure_runs :
    configure xml (some hosts) (some (array sends_xml)) (some (array recvs_xml))
    ≡ go (sends_built, recvs_built)
unfolding configure read_tables read_hosts set_ip ip_of has_port read_send_topic read_recv_topic
    read_topics get_optional_bitrate_param get_optional_string_param parse_bitrate_text trim_copy
configure_runs = refl

configure-IsConfigured_example :
    IsConfigured xml
      (elements_of (array sends_xml))
      (elements_of (array recvs_xml))
      sends_built
      recvs_built
configure-IsConfigured_example =
    configure-IsConfigured xml (some hosts) (some (array sends_xml)) (some (array recvs_xml))
      sends_built recvs_built configure_runs

-- A node before its initialization, and after it.
abbrev new_world : World Micros
new_world = record idle_world { fault = record idle_world.fault { thread_running = false } }

abbrev new_control : SendControl
new_control = record { thread_flag = true; joinable = false; queue = []; queue_bytes = 0 }

abbrev queued_world : World Micros
queued_world = record idle_world {
  controls = new_control ∷ record new_control { queue = msg 1 ∷ []; queue_bytes = 1 } ∷ [];
}

ready_world-Reachable : Reachable (record idle_world { controls = new_control ∷ new_control ∷ [] })
unfolding initialize_node_fault_control initialize_send_bitrate_control parse_policies
    parse_fault_policy
ready_world-Reachable = initialized true new_world _ refl

ready_world-calls :
    run_call
      (sends 1 (msg 1) (at 1) (at 1) (at 1) (at 1))
      (record idle_world { controls = new_control ∷ new_control ∷ [] })
    ≡ some queued_world
unfolding run_call dispatch_send_message dispatch_send_message_after_fault admit
    flush_expired_fault_if_needed is_node_fault_active_locked enqueue_send_message max_queue_bytes
ready_world-calls = refl

Reachable-IsAligned_example : IsAligned queued_world
Reachable-IsAligned_example =
    Reachable-IsAligned queued_world (called _ _ _ ready_world-Reachable ready_world-calls)
