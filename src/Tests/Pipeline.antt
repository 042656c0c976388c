-- ===== src/Tests/Pipeline.antt =====
-- A topic from node to node, with messages of one byte.

use swarm_ros_bridge.Common.{
  ℕ, zero, suc, pos, true, false, some, none, List, [], ◌∷◌, map, ◌≡◌, refl, arith, Bytes, Option,
  subst, sym, length, codes,
}
use swarm_ros_bridge.Double.Micros.{Micros, micros_double}
use swarm_ros_bridge.World.{World, send_topic}
use swarm_ros_bridge.Replay.Log.{sent, shown}
use swarm_ros_bridge.Bridge.Frequency.{fresh, Period}
use swarm_ros_bridge.Bridge.Wire.{Receiver}
use swarm_ros_bridge.Bridge.Callbacks.{Serializer, IsSerializer}
use swarm_ros_bridge.Bridge.MsgTypes.{string, Subscription, topic_subscriber, nh_sub, sub_callbacks}
use swarm_ros_bridge.Topic.{TopicInfo}
use swarm_ros_bridge.Bridge.Pipeline.{
  Publish, Receive, received, PartOf, ends, keeps, drops, IsPubSub, published_value, run_sub_cb,
  passed, all_frames, run_recv,
}
use swarm_ros_bridge.Bridge.Pipeline.Delivery.{run_sub_cb-run_recv}
use swarm_ros_bridge.Tests.Data.{at, idle_world}
use swarm_ros_bridge.Tests.Rates.{unary, unary-IsPacking, since}

-- Messages of one byte, written as they are.
abbrev write_byte : ℕ → ℕ → Option Bytes
write_byte x zero = none
write_byte x (suc n) = some (x ∷ [])

abbrev read_byte : Bytes → Option ℕ
read_byte [] = none
read_byte (x ∷ s) = some x

abbrev byte : Serializer ℕ
byte = record { serialization_length = λ x. 1; serialize = write_byte; deserialize = read_byte }

byte-IsSerializer : IsSerializer byte
byte-IsSerializer = record {
  bytes_of = λ x. x ∷ [];
  fits = λ x. refl;
  fills = λ x. refl;
  reads_back = λ x. refl;
}

-- Ten a second at most: the second comes too soon.
abbrev publish : ℕ → ℕ → Publish ℕ ℕ
publish x now = record { value = x; now = now; t₁ = at 1; t₂ = at 1; t₃ = at 1; t₄ = at 1 }

abbrev publishes : List (Publish ℕ ℕ)
publishes = publish 7 1_000_000 ∷ publish 8 1_000_001 ∷ publish 9 1_200_000 ∷ []

-- Before each message a receive fails.
abbrev stutters : List (List Bytes) → List Receive
stutters [] = []
stutters (fs ∷ rest) =
    record { t₁ = at 2; t₂ = at 2; frames = none }
    ∷ record { t₁ = at 3; t₂ = at 3; frames = some fs }
    ∷ stutters rest

stutters-all : (fs : List (List Bytes)) → received (stutters fs) ≡ fs
stutters-all [] = refl
stutters-all (f ∷ fs) = rw (stutters-all fs) refl

-- The first message is lost.
abbrev loses_first : List (List Bytes) → List Receive
loses_first [] = []
loses_first (f ∷ fs) = stutters fs

whole : (fs : List (List Bytes)) → PartOf fs fs
whole [] = ends
whole (f ∷ fs) = keeps f fs fs (whole fs)

loses_first-part : (fs : List (List Bytes)) → PartOf (received (loses_first fs)) fs
loses_first-part [] = ends
loses_first-part (f ∷ fs) =
    drops f (received (stutters fs)) fs
      (subst (λ (gs : List (List Bytes)). PartOf gs fs) (sym (stutters-all fs)) (whole fs))

loses_first-IsPubSub : IsPubSub loses_first
loses_first-IsPubSub = record { in_order = loses_first-part }

abbrev listener : Receiver
listener = record { thread_flag = true; flag_last = false }

-- The topics carry texts.
abbrev text_topic : TopicInfo Micros
text_topic = record (send_topic idle_world 0) { msg_type = codes "std_msgs/String" }

abbrev text_world : World Micros
text_world = record idle_world { send_topics = text_topic ∷ []; recv_topics = text_topic ∷ [] }

abbrev text_sub : Subscription
text_sub = record { topic_name = text_topic.name; class = string; queue_size = 10; callback = 0 }

run_sub_cb-run_recv_example :
    (p' : Period ℕ) × (r' : Receiver) × (u o : World Micros) × (fs : List (List Bytes))
    × (values : List ℕ) × (run_sub_cb since byte 0 publishes (fresh 0) text_world ≡ some (p', u))
    × (all_frames unary (sent 0 u) ≡ some fs)
    × (run_recv unary [] (b'c' ∷ []) 0 (loses_first fs) listener text_world ≡ some (r', o))
    × (map (published_value since {T = λ c. ℕ} (λ c. byte) 0 o) (shown 0 o)
        ≡ map (λ x. some (string, x)) values)
    × PartOf values (passed since (pos 10) publishes (fresh 0))
    × (length values ≡ length (received (loses_first fs)))
unfolding topic_subscriber nh_sub sub_callbacks
run_sub_cb-run_recv_example =
    run_sub_cb-run_recv since {T = λ c. ℕ} (λ c. byte) unary loses_first [] b'c' [] 0 0 text_sub
      publishes (fresh 0) listener text_world text_world (λ c. byte-IsSerializer) unary-IsPacking
      loses_first-IsPubSub (λ x. omega arith) refl refl
      (record { inactive = refl; steady = refl; free = refl }) refl
      (record { inactive = refl; steady = refl; callback = refl }) refl
