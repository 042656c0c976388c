-- ===== src/Bridge/MsgTypes.antt =====
-- include/ros_sub_pub.hpp: the message types that are compiled in, and the three functions that
-- choose by the type's name. ROS handles are what they are made from.
use mathlib.Core.Option
use swarm_ros_bridge.Common.{
  ℕ, get_or, Bytes, codes, bytes_eq, Option, none, some, if◌then◌else◌, ◌≡◌, ◌<◌, arith, ltb,
}
use swarm_ros_bridge.Double.{Double}
use swarm_ros_bridge.World.{World, no_topic}

-- MSG_CLASS1 to MSG_CLASS3; the other seven slots are not defined.
pub data MsgClass : Type 0 where
  imu twist string : MsgClass

abbrev pub sub_max : ℕ
sub_max = 50

-- A subscription: its topic, class, queue size and the number of its callback.
pub record Subscription : Type 0 where
  pub topic_name : Bytes
  pub class : MsgClass
  pub queue_size : ℕ
  pub callback : ℕ

pub record Publication : Type 0 where
  pub topic_name : Bytes
  pub class : MsgClass
  pub queue_size : ℕ

-- `sub_callbacks<T>[i]`, a table of fifty; `none` is an index past its end.
unfoldable pub sub_callbacks : ℕ → Option ℕ
sub_callbacks i = if ltb i sub_max then some i else none

unfoldable pub nh_sub : MsgClass → Bytes → ℕ → Option Subscription
unfolding sub_callbacks
nh_sub class topic_name i =
    Option.map
      (λ n. record { topic_name = topic_name; class = class; queue_size = 10; callback = n })
      (sub_callbacks i)

-- `none` is also the fatal log and exit(1) for a type that is not compiled in.
unfoldable pub topic_subscriber : Bytes → Bytes → ℕ → Option Subscription
unfolding nh_sub
topic_subscriber topic_name msg_type i =
    if bytes_eq msg_type (codes "sensor_msgs/Imu")
    then nh_sub imu topic_name i
    else if bytes_eq msg_type (codes "geometry_msgs/Twist")
    then nh_sub twist topic_name i
    else if bytes_eq msg_type (codes "std_msgs/String")
    then nh_sub string topic_name i
    else none

unfoldable pub topic_publisher : Bytes → Bytes → Option Publication
topic_publisher topic_name msg_type =
    if bytes_eq msg_type (codes "sensor_msgs/Imu")
    then some (record { topic_name = topic_name; class = imu; queue_size = 10 })
    else if bytes_eq msg_type (codes "geometry_msgs/Twist")
    then some (record { topic_name = topic_name; class = twist; queue_size = 10 })
    else if bytes_eq msg_type (codes "std_msgs/String")
    then some (record { topic_name = topic_name; class = string; queue_size = 10 })
    else none

-- The class whose `deserialize_pub` is called.
unfoldable pub deserialize_publish : Bytes → Option MsgClass
deserialize_publish msg_type =
    if bytes_eq msg_type (codes "sensor_msgs/Imu")
    then some imu
    else if bytes_eq msg_type (codes "geometry_msgs/Twist")
    then some twist
    else if bytes_eq msg_type (codes "std_msgs/String")
    then some string
    else none

module _ {W : Type 0} ⦃d : Double W⦄ where
  -- The callback of src/bridge_node.cpp that publishes: the class by the receive topic's type.
  unfoldable pub publish_received_message : ℕ → World W → Option MsgClass
  unfolding deserialize_publish
  publish_received_message i w = deserialize_publish (get_or w.recv_topics i no_topic).msg_type

-- A payload is deserialized as the class that its topic is advertised with, and fails for exactly
-- the types that cannot be advertised.
pub deserialize_publish-topic_publisher :
    (topic_name msg_type : Bytes)
    → deserialize_publish msg_type ≡ Option.map (λ p. p.class) (topic_publisher topic_name msg_type)
unfolding deserialize_publish topic_publisher
deserialize_publish-topic_publisher topic_name msg_type = ground arith

-- For an index below the limit that the node checks, a type can be subscribed to exactly if it can
-- be advertised, and then as the same class, with the callback of that index.
pub topic_subscriber-topic_publisher :
    (topic_name msg_type : Bytes) (i : ℕ)
    → i < sub_max
    → topic_subscriber topic_name msg_type i
      ≡ Option.map
          (λ p. record { topic_name = topic_name; class = p.class; queue_size = 10; callback = i })
          (topic_publisher topic_name msg_type)
unfolding topic_subscriber topic_publisher
topic_subscriber-topic_publisher topic_name msg_type i h = ground arith

-- A subscription to a topic, of the class that its type's messages are published as.
abbrev pub IsSubscribed : Bytes → Bytes → ℕ → Subscription → Type 0
IsSubscribed name type i s =
    (s.topic_name ≡ name) × (s.callback ≡ i) × (deserialize_publish type ≡ some s.class)

pub topic_subscriber-IsSubscribed :
    (name type : Bytes) (i : ℕ) (s : Subscription)
    → topic_subscriber name type i ≡ some s
    → IsSubscribed name type i s
unfolding topic_subscriber nh_sub sub_callbacks deserialize_publish
topic_subscriber-IsSubscribed name type i s e =
    (ground (arith, e), ground (arith, e), ground (arith, e))
