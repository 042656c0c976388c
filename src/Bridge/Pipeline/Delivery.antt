-- ===== src/Bridge/Pipeline/Delivery.antt =====
-- What is published on a topic of one node comes out of the topic of another.
use swarm_ros_bridge.Common.{
  ℕ, length, length-map, get_or, ◌<◌, Bytes, some, List, [], ◌∷◌, ◌++◌, map, ◌≡◌, refl, sym, ap,
  ◌∙◌, All,
}
use swarm_ros_bridge.Double.{Double}
use swarm_ros_bridge.Topic.{Message, TopicInfo}
use swarm_ros_bridge.World.{World, size_range, send_topic, no_topic}
use swarm_ros_bridge.Replay.Log.{sent, shown}
use swarm_ros_bridge.Bridge.Frequency.{Period}
use swarm_ros_bridge.Bridge.Wire.{Packing, IsPacking, Receiver}
use swarm_ros_bridge.Bridge.Callbacks.{Serializer, IsSerializer, deserialize_pub}
use swarm_ros_bridge.Bridge.MsgTypes.{
  MsgClass, Subscription, topic_subscriber, deserialize_publish, publish_received_message,
  topic_subscriber-IsSubscribed,
}
use swarm_ros_bridge.Bridge.Pipeline.{
  Publish, Receive, PartOf, ends, keeps, drops, IsPubSub, received, published_value, run_sub_cb,
  passed, all_frames, run_recv,
}
use swarm_ros_bridge.Bridge.Pipeline.Writes.{carrier, IsFree, run_sub_cb-Wrote}
use swarm_ros_bridge.Bridge.Pipeline.Reads.{
  IsSendable, IsListening, frames_of, all_frames-map, run_recv-Shows,
}

module _ {T : Type 0} (s : Serializer T) (law : IsSerializer s)
    (small : (x : T) → s.serialization_length x < size_range) where
  carriers-IsSendable : (xs : List T) → All IsSendable (map (carrier s law) xs)
  carriers-IsSendable [] = tt
  carriers-IsSendable (x ∷ xs) = ((sym (law.fills x), small x), carriers-IsSendable xs)

part-map :
    {A B : Type 0} (f : A → B) (cs : List A) (bs : List B)
    → PartOf bs (map f cs)
    → (ds : List A) × PartOf ds cs × (bs ≡ map f ds)
part-map f [] [] ends = ([], ends, refl)
part-map f [] (b ∷ bs) p = elim p [ ]
part-map f (c ∷ cs) _ (keeps _ bs _ p) =
    let (ds, q, e) = part-map f cs bs p in (c ∷ ds, keeps c ds cs q, ap (λ l. f c ∷ l) e)
part-map f (c ∷ cs) bs (drops _ _ _ p) =
    let (ds, q, e) = part-map f cs bs p in (ds, drops c ds cs q, e)

module _ {W C : Type 0} ⦃d : Double W⦄ (since : C → C → W) {T : MsgClass → Type 0}
    (s : (c : MsgClass) → Serializer (T c)) (law : (c : MsgClass) → IsSerializer (s c)) where
  -- A node publishes the values that it gets, on a topic whose class is theirs.
  published-carriers :
      (k : ℕ) (o : World W) (c : MsgClass) (xs : List (T c))
      → publish_received_message k o ≡ some c
      → map (published_value since s k o) (map (carrier (s c) (law c)) xs)
        ≡ map (λ x. some (c, x)) xs
  unfolding published_value deserialize_pub
  published-carriers k o c [] e = refl
  published-carriers k o c (x ∷ xs) e = rw (e, (law c).reads_back x, published-carriers k o c xs e)

-- Two nodes without a fault or a replay, a send topic with no bitrate limit on which nothing has
-- been sent, and a receive topic of the same type on which nothing has been shown; between them a
-- transport that may lose messages, but gives the others whole, in order and once. Any run of
-- callbacks of the send topic's class on the one node returns, the frames of all that it writes
-- exist, and the other node's receive loop over what arrives of them returns. It has then published
-- one value for each message that arrives, as the class of its own topic's type: these are, in
-- order, a part of the values that the frequency let through. Serialization and packing read back
-- what they write, the lengths fit a size_t, and the receiving topic has a name.
pub run_sub_cb-run_recv :
    {W C : Type 0} ⦃d : Double W⦄ (since : C → C → W) {T : MsgClass → Type 0}
    (s : (c : MsgClass) → Serializer (T c)) (z : Packing)
    (transport : List (List Bytes) → List Receive) (ns : Bytes) (b : ℕ) (name : Bytes) (i k : ℕ)
    (sub : Subscription) (xs : List (Publish C (T sub.class))) (p : Period C) (r : Receiver)
    (w v : World W)
    → ((c : MsgClass) → IsSerializer (s c))
    → IsPacking z
    → IsPubSub transport
    → ((x : T sub.class) → (s sub.class).serialization_length x < size_range)
    → topic_subscriber (send_topic w i).name (send_topic w i).msg_type i ≡ some sub
    → (get_or v.recv_topics k no_topic).msg_type ≡ (send_topic w i).msg_type
    → IsFree i w
    → sent i w ≡ []
    → IsListening v
    → shown k v ≡ []
    → (p' : Period C) × (r' : Receiver) × (u o : World W) × (fs : List (List Bytes))
      × (values : List (T sub.class)) × (run_sub_cb since (s sub.class) i xs p w ≡ some (p', u))
      × (all_frames z (sent i u) ≡ some fs)
      × (run_recv z ns (b ∷ name) k (transport fs) r v ≡ some (r', o))
      × (map (published_value since s k o) (shown k o) ≡ map (λ x. some (sub.class, x)) values)
      × PartOf values (passed since (send_topic w i).max_freq xs p)
      × (length values ≡ length (received (transport fs)))
unfolding publish_received_message
run_sub_cb-run_recv {W = W} since s z transport ns b name i k sub xs p r w v law packs lossy small
      subscribed same_type free none_sent listens none_shown =
    let c = sub.class in
    let carry = carrier (s c) (law c) in
    let values = passed since (send_topic w i).max_freq xs p in
    let ms = map carry values in
    let frames = frames_of z packs in
    let ok = carriers-IsSendable (s c) (law c) small in
    let (p', u, ran, a) = run_sub_cb-Wrote since (s c) (law c) i xs p w free in
    let wrote : sent i u ≡ ms = a.sent_all ∙ ap (λ (l : List Message). l ++ ms) none_sent in
    let (ms', part, got) =
      part-map frames ms (received (transport (map frames ms))) (lossy.in_order (map frames ms)) in
    let (arrived, part', carried) = part-map carry values ms' part in
    let came : received (transport (map frames ms)) ≡ map frames (map carry arrived) =
      got ∙ ap (map frames) carried in
    let (r', o, heard, all, same_topics) =
      run_recv-Shows z packs ns b name k (transport (map frames ms)) (map carry arrived) r v
        (ok arrived) listens came in
    let class : publish_received_message k o ≡ some c =
      ap (λ (ts : List (TopicInfo W)). deserialize_publish (get_or ts k no_topic).msg_type)
        same_topics
      ∙ ap deserialize_publish same_type
      ∙ (topic_subscriber-IsSubscribed _ _ i sub subscribed).2 in
    (
      p',
      r',
      u,
      o,
      map frames ms,
      arrived,
      ran,
      rw wrote (all_frames-map z packs ms (ok values)),
      heard,
      ap (map (published_value since s k o))
            (all ∙ ap (λ (l : List Message). l ++ map carry arrived) none_shown)
          ∙ published-carriers since s law k o c arrived class,
      part',
      sym (ap length came ∙ length-map frames (map carry arrived) ∙ length-map carry arrived),
    )
