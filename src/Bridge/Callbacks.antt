-- ===== src/Bridge/Callbacks.antt =====
-- The ROS callbacks of src/bridge_node.cpp: `sub_cb` on the way out, `deserialize_pub` on the way in.
-- The serialization of a message type is ROS's own, and a parameter.
use swarm_ros_bridge.Common.{
  ℕ, ◌<◌, Bytes, Bool, false, Option, some, [], ◌∷◌, ◌++◌, length, if◌then◌else◌, ◌>>=◌, ◌≡◌, refl,
  ap, sym, ◌∙◌, ==_iff,
}
use swarm_ros_bridge.Double.{Double}
use swarm_ros_bridge.Topic.{Message}
use swarm_ros_bridge.World.{World, size_range, send_topic, is_limited, zmq_sent}
use swarm_ros_bridge.Replay.{send_serialized_message}
use swarm_ros_bridge.Replay.Log.{sent, sent_on-append}
use swarm_ros_bridge.Dispatch.{dispatch_send_message}
use swarm_ros_bridge.Dispatch.Resume.{send-idle, flush-idle}
use swarm_ros_bridge.Bridge.Frequency.{Period, send_freq_control}
use swarm_ros_bridge.Bridge.Wire.{
  Packing, IsPacking, message_frames, receive_message, message_of, receive_message-frames,
}

-- `serializationLength`; `serialize` into a buffer of so many bytes, `none` where its stream throws on
-- an overrun; `deserialize` from a buffer, which may throw too.
pub record Serializer (T : Type 0) : Type 0 where
  pub serialization_length : T → ℕ
  pub serialize : T → ℕ → Option Bytes
  pub deserialize : Bytes → Option T

-- A buffer of the announced length is filled whole, and reads back as the message.
pub record IsSerializer {T : Type 0} (s : Serializer T) : Type 0 where
  pub bytes_of : T → Bytes
  pub fits : (x : T) → s.serialize x (s.serialization_length x) ≡ some (bytes_of x)
  pub fills : (x : T) → length (bytes_of x) ≡ s.serialization_length x
  pub reads_back : (x : T) → s.deserialize (bytes_of x) ≡ some x

module _ {W C T : Type 0} ⦃d : Double W⦄ (since : C → C → W) (s : Serializer T) where
  -- The message that is handed to the communication control.
  unfoldable pub send_message : T → Option Message
  send_message x = do
    bytes ← s.serialize x (s.serialization_length x)
    some (record { data_len = s.serialization_length x; payload = bytes })

  -- `sub_cb<T, i>`: the ROS time for the frequency, the readings of the clock for the dispatch.
  unfoldable pub sub_cb :
      ℕ → T → C → ℕ → ℕ → ℕ → ℕ → Period C → World W → Option (Period C × World W)
  unfolding send_message
  sub_cb i x now t₁ t₂ t₃ t₄ p w =
      let (ignore_flag, p') = send_freq_control since (send_topic w i).max_freq now p in
      if ignore_flag
      then some (p', w)
      else do m ← send_message x; v ← dispatch_send_message i m t₁ t₂ t₃ t₄ w; some (p', v)

  -- `deserialize_pub<T>`: what is published on the topic.
  unfoldable pub deserialize_pub : Message → Option T
  deserialize_pub m = s.deserialize m.payload

  -- With no fault and no replay, on a topic with no bitrate limit, a callback whose message the
  -- frequency lets through writes one message to the topic's socket, and the frames of that
  -- message are received and deserialized as what was published. Serialization and packing read
  -- back what they write, and the length fits a size_t.
  pub sub_cb-deserialize_pub :
      (z : Packing) (i : ℕ) (x : T) (now : C) (t₁ t₂ t₃ t₄ : ℕ) (p : Period C) (w : World W)
      → IsSerializer s
      → IsPacking z
      → s.serialization_length x < size_range
      → w.fault.active ≡ false
      → w.fault.recovering ≡ false
      → is_limited w i ≡ false
      → (send_freq_control since (send_topic w i).max_freq now p).0 ≡ false
      → (m : Message) × (u : World W) × (sub_cb i x now t₁ t₂ t₃ t₄ p w
          ≡ some ((send_freq_control since (send_topic w i).max_freq now p).1, u))
        × (sent i u ≡ sent i w ++ m ∷ [])
        × ((do
          r ← (do frames ← message_frames z m; message_of (receive_message z frames))
          deserialize_pub r)
            ≡ some x)
  unfolding sub_cb send_serialized_message deserialize_pub send_message
  sub_cb-deserialize_pub z i x now t₁ t₂ t₃ t₄ p w law packs small a r free pass =
      let m : Message = record { data_len = s.serialization_length x; payload = law.bytes_of x } in
      let sends_it = send-idle i m t₁ t₂ t₃ t₄ w w (flush-idle t₁ w a) a r free in
      (
        m,
        send_serialized_message i m w,
        rw (pass, law.fits x, sends_it) refl,
        sent_on-append i w.events (zmq_sent i m ∷ [])
            ∙ ap (λ (b : Bool). sent i w ++ (if b then m ∷ [] else [])) ((==_iff i i).1 refl),
        rw (receive_message-frames z packs m (sym (law.fills x)) small) (law.reads_back x),
      )
