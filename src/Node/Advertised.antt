-- ===== src/Node/Advertised.antt =====
-- The publishers of a node against its table of receive topics.
use mathlib.Core.Option
use swarm_ros_bridge.Common.{
  ℕ, Bytes, Option, none, some, List, [], ◌∷◌, map, get_or, get_or-map, ◌≡◌, refl, sym, ap, ◌∙◌,
  arith,
}
use swarm_ros_bridge.Double.{Double}
use swarm_ros_bridge.Topic.{TopicInfo}
use swarm_ros_bridge.World.{World, no_topic}
use swarm_ros_bridge.Bridge.MsgTypes.{
  MsgClass, Publication, topic_publisher, deserialize_publish, publish_received_message,
  deserialize_publish-topic_publisher,
}
use swarm_ros_bridge.Bridge.Topics.{go, or_exit, go-inj, exited}
use swarm_ros_bridge.Bridge.Ports.{bind-go}
use swarm_ros_bridge.Node.{Handle}
use swarm_ros_bridge.Node.Start.{advertise}

abbrev pub class_of : Handle Publication → Option MsgClass
class_of h = some h.made_from.class

abbrev pub name_of : Handle Publication → Bytes
name_of h = h.made_from.topic_name

-- Each topic has a publisher of its name, of the class that its messages are deserialized as.
pub record IsAdvertised {W : Type 0} (ts : List (TopicInfo W)) (hs : List (Handle Publication))
    : Type 0 where
  pub names : map name_of hs ≡ map (λ t. t.name) ts
  pub classes : map class_of hs ≡ map (λ t. deserialize_publish t.msg_type) ts

publisher-name :
    (topic_name msg_type : Bytes) (p : Publication)
    → topic_publisher topic_name msg_type ≡ some p
    → p.topic_name ≡ topic_name
unfolding topic_publisher
publisher-name topic_name msg_type p e = ground (arith, e)

module _ {W : Type 0} where
  pub advertise-IsAdvertised :
      (ts : List (TopicInfo W)) (hs : List (Handle Publication))
      → advertise ts ≡ go hs
      → IsAdvertised ts hs
  unfolding advertise
  advertise-IsAdvertised [] hs e =
      rw (sym (go-inj [] hs e)) (record { names = refl; classes = refl })
  advertise-IsAdvertised (t ∷ ts) hs e =
      let (s, f, g) = bind-go (or_exit (topic_publisher t.name t.msg_type)) _ hs e in
      let (rest, j, k) = bind-go (advertise ts) _ hs g in
      let made = exited (topic_publisher t.name t.msg_type) s f in
      let r = advertise-IsAdvertised ts rest j in
      let class : deserialize_publish t.msg_type ≡ some s.class =
        deserialize_publish-topic_publisher t.name t.msg_type
        ∙ ap (Option.map (λ (p : Publication). p.class)) made in
      rw (sym (go-inj _ hs k)) (record {
        names = rw (publisher-name t.name t.msg_type s made, r.names) refl;
        classes = rw (class, r.classes) refl;
      })

module _ {W : Type 0} ⦃d : Double W⦄ where
  -- So is each message that is received, whatever the index.
  pub published_as :
      (i : ℕ) (w : World W) (hs : List (Handle Publication))
      → IsAdvertised w.recv_topics hs
      → get_or (map class_of hs) i none ≡ publish_received_message i w
  unfolding publish_received_message deserialize_publish
  published_as i w hs a =
      ap (λ (cs : List (Option MsgClass)). get_or cs i none) a.classes
      ∙ get_or-map (λ (t : TopicInfo W). deserialize_publish t.msg_type) w.recv_topics i no_topic
