-- ===== src/Bridge/Pipeline.antt =====
-- Two nodes of src/bridge_node.cpp with a topic between them: a run of `sub_cb` on the one, a run of
-- the loop of `recv_func` on the other, and the socket's transport, a parameter, between the two.
pub mod Writes
pub mod Reads
pub mod Delivery
use swarm_ros_bridge.Common.{
  ℕ, ℤ, Bytes, Bool, true, false, Option, none, some, List, [], ◌∷◌, ◌>>=◌, if◌then◌else◌, ◌≡◌, All,
}
use swarm_ros_bridge.Double.{Double}
use swarm_ros_bridge.Topic.{Message}
use swarm_ros_bridge.World.{World}
use swarm_ros_bridge.Bridge.Frequency.{Period, send_freq_control}
use swarm_ros_bridge.Bridge.Wire.{Packing, message_frames, Receiver, recv_func}
use swarm_ros_bridge.Bridge.Callbacks.{Serializer, sub_cb, deserialize_pub}
use swarm_ros_bridge.Bridge.MsgTypes.{MsgClass, publish_received_message}

-- A message published on the local topic, the ROS time of its callback and the readings of the clock
-- in it.
pub record Publish (C T : Type 0) : Type 0 where
  pub value : T
  pub now : C
  pub t₁ : ℕ
  pub t₂ : ℕ
  pub t₃ : ℕ
  pub t₄ : ℕ

-- A blocking receive: the readings of the clock after it, and the frames if it succeeds.
pub record Receive : Type 0 where
  pub t₁ : ℕ
  pub t₂ : ℕ
  pub frames : Option (List Bytes)

abbrev pub with_frames : Option (List Bytes) → List (List Bytes) → List (List Bytes)
with_frames none rest = rest
with_frames (some fs) rest = fs ∷ rest

abbrev pub received : List Receive → List (List Bytes)
received [] = []
received (r ∷ rs) = with_frames r.frames (received rs)

-- The first list is what dropping some entries leaves of the second.
pub data PartOf {A : Type 0} : List A → List A → Type 0 where
  ends : PartOf [] []
  keeps : (a : A) (cs bs : List A) → PartOf cs bs → PartOf (a ∷ cs) (a ∷ bs)
  drops : (b : A) (cs bs : List A) → PartOf cs bs → PartOf cs (b ∷ bs)

-- What a subscriber of ZeroMQ's PUB/SUB gets of what one publisher writes: messages may be lost, but
-- those that arrive are whole, in order and each there once. Receives may fail in between.
pub record IsPubSub (transport : List (List Bytes) → List Receive) : Type 0 where
  pub in_order : (fs : List (List Bytes)) → PartOf (received (transport fs)) fs

module _ {W C T : Type 0} ⦃d : Double W⦄ (since : C → C → W) where
  unfoldable pub run_sub_cb :
      Serializer T → ℕ → List (Publish C T) → Period C → World W → Option (Period C × World W)
  unfolding sub_cb
  run_sub_cb s i [] p w = some (p, w)
  run_sub_cb s i (x ∷ xs) p w = do
    (p', v) ← sub_cb since s i x.value x.now x.t₁ x.t₂ x.t₃ x.t₄ p w
    run_sub_cb s i xs p' v

  -- What the frequency lets through.
  pub passed : ℤ → List (Publish C T) → Period C → List T
  passed max_freq [] p = []
  passed max_freq (x ∷ xs) p =
      let (discard_flag, p') = send_freq_control since max_freq x.now p in
      let rest = passed max_freq xs p' in if discard_flag then rest else x.value ∷ rest

module _ (z : Packing) where
  -- The frames of each message written.
  unfoldable pub all_frames : List Message → Option (List (List Bytes))
  unfolding message_frames
  all_frames [] = some []
  all_frames (m ∷ ms) = do fs ← message_frames z m; rest ← all_frames ms; some (fs ∷ rest)

  module _ {W : Type 0} ⦃d : Double W⦄ (ns topic_name : Bytes) where
    -- The loop of `recv_func` while its flag is up.
    unfoldable pub run_recv : ℕ → List Receive → Receiver → World W → Option (Receiver × World W)
    unfolding recv_func
    run_recv i [] r w = some (r, w)
    run_recv i (x ∷ xs) r w = do
      (name, r', v) ← recv_func z ns topic_name i x.t₁ x.t₂ x.frames r w
      run_recv i xs r' v

module _ {W C : Type 0} ⦃d : Double W⦄ (since : C → C → W) {T : MsgClass → Type 0}
    (s : (c : MsgClass) → Serializer (T c)) where
  -- What the callback of a receive topic makes of a message: the class is that of the topic's type,
  -- and the payload is deserialized as that class.
  unfoldable pub published_value : ℕ → World W → Message → Option ((c : MsgClass) × T c)
  unfolding publish_received_message deserialize_pub
  published_value k w m = do
    c ← publish_received_message k w
    x ← deserialize_pub since (s c) m
    some (c, x)
