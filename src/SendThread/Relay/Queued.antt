-- ===== src/SendThread/Relay/Queued.antt =====
-- A message that goes into the queue of a limited topic, while there is no fault.

use swarm_ros_bridge.Common.{
  ℕ, ◌+◌, ◌≤◌, ◌<◌, true, false, some, List, [], ◌∷◌, ◌++◌, arith, length, length-modify,
  get_or-modify_self, ◌≡◌, sym, ◌∙◌, subst,
}
use swarm_ros_bridge.Double.{Double}
use swarm_ros_bridge.Topic.{Message}
use swarm_ros_bridge.World.{
  World, SendControl, no_control, size_range, send_topic, control, is_limited,
}
use swarm_ros_bridge.SendQueue.{max_queue_bytes, push, enqueue_send_message}
use swarm_ros_bridge.SendQueue.Bounds.{
  total, IsCounted, Pushed, queue_limit, push-Pushed, len-le-max_queue_bytes,
}
use swarm_ros_bridge.Replay.Log.{sent}
use swarm_ros_bridge.Dispatch.{hold_sent, dispatch_send_message, dispatch_send_message_after_fault}
use swarm_ros_bridge.Dispatch.Resume.{admit-idle, flush-idle}
use swarm_ros_bridge.SendThread.Relay.{Line, Line-push}

module _ {W : Type 0} ⦃d : Double W⦄ where
  -- No fault, and no replay.
  pub record IsIdle (w : World W) : Type 0 where
    pub inactive : w.fault.active ≡ false
    pub steady : w.fault.recovering ≡ false

  pub send-queued :
      (j : ℕ) (m : Message) (t₁ t₂ t₃ t₄ : ℕ) (w : World W)
      → IsIdle w
      → is_limited w j ≡ true
      → dispatch_send_message j m t₁ t₂ t₃ t₄ w ≡ some (enqueue_send_message j m w)
  unfolding dispatch_send_message dispatch_send_message_after_fault
  send-queued j m t₁ t₂ t₃ t₄ w v limited =
      rw (flush-idle t₁ w v.inactive, admit-idle (hold_sent j m) t₂ w v.inactive v.steady, limited)

  -- Room for no message in particular, and room when the longest message is the next.
  abbrev pub room : World W → ℕ → ℕ
  room w i = max_queue_bytes (send_topic w i).max_bitrate 0

  abbrev pub most : World W → ℕ → ℕ → ℕ
  most w i longest = max_queue_bytes (send_topic w i).max_bitrate longest

  max_queue_bytes_mono : (b : W) (n k : ℕ) → n ≤ k → max_queue_bytes b n ≤ max_queue_bytes b k
  unfolding max_queue_bytes
  max_queue_bytes_mono b n k h = ground arith

  -- What is kept of topic `i` since `w₀`, after the messages `ms`, of which `written` have got to the
  -- socket: its line on the way there.
  pub record Lined (i longest : ℕ) (w₀ : World W) (ms written : List Message) (w : World W)
      : Type 0 where
    pub topics : w.send_topics ≡ w₀.send_topics
    pub controls : length w.controls ≡ length w₀.controls
    pub counted : IsCounted (control w i)
    pub within : total (control w i).queue ≤ most w₀ i longest
    pub sent_all : sent i w ≡ sent i w₀ ++ written
    pub line : Line (room w₀ i) ms written (control w i).queue

  -- The same in a run with no fault.
  pub record Relayed (i longest : ℕ) (w₀ : World W) (ms : List Message) (w : World W) : Type 0 where
    pub idle : IsIdle w
    pub written : List Message
    pub lined : Lined i longest w₀ ms written w
    pub open lined use *

  -- A step that leaves the topic's queue and socket alone.
  pub elsewhere-Lined :
      (i longest : ℕ) (w₀ w v : World W) (ms written : List Message)
      → Lined i longest w₀ ms written w
      → v.send_topics ≡ w.send_topics
      → length v.controls ≡ length w.controls
      → control v i ≡ control w i
      → sent i v ≡ sent i w
      → Lined i longest w₀ ms written v
  elsewhere-Lined i longest w₀ w v ms written r e n c s = record {
    topics = e ∙ r.topics;
    controls = n ∙ r.controls;
    counted = subst IsCounted (sym c) r.counted;
    within = rw c r.within;
    sent_all = s ∙ r.sent_all;
    line = subst (λ (k : SendControl). Line (room w₀ i) ms written k.queue) (sym c) r.line;
  }

  pub elsewhere :
      (i longest : ℕ) (w₀ w v : World W) (ms : List Message)
      → Relayed i longest w₀ ms w
      → IsIdle v
      → v.send_topics ≡ w.send_topics
      → length v.controls ≡ length w.controls
      → control v i ≡ control w i
      → sent i v ≡ sent i w
      → Relayed i longest w₀ ms v
  elsewhere i longest w₀ w v ms r a e n c s = record {
    idle = a;
    written = r.written;
    lined = elsewhere-Lined i longest w₀ w v ms r.written r.lined e n c s;
  }

module _ {W : Type 0} ⦃d : Double W⦄ (i longest : ℕ) (w₀ : World W)
    (small : most w₀ i longest + longest < size_range) (tracked : i < length w₀.controls) where
  pub queued-Lined :
      (m : Message) (ms written : List Message) (w : World W)
      → m.data_len ≤ longest
      → Lined i longest w₀ ms written w
      → Lined i longest w₀ (ms ++ m ∷ []) written (enqueue_send_message i m w)
  unfolding enqueue_send_message
  queued-Lined m ms written w h r = record {
    topics = r.topics;
    controls = length-modify w.controls i _ ∙ r.controls;
    counted = subst IsCounted (sym own) p.counted;
    within = rw own (omega (arith, p.within, le));
    sent_all = r.sent_all;
    line =
        subst (λ (k : SendControl). Line (room w₀ i) (ms ++ m ∷ []) written k.queue) (sym own)
          (Line-push (room w₀ i) limit ms written m (control w i) (push limit m (control w i)) ge p
            r.line);
  }
    where
      limit : ℕ
      limit = queue_limit w i m

      le : limit ≤ most w₀ i longest
      le = rw r.topics (max_queue_bytes_mono (send_topic w₀ i).max_bitrate m.data_len longest h)

      ge : room w₀ i ≤ limit
      ge =
          rw r.topics
            (max_queue_bytes_mono (send_topic w₀ i).max_bitrate 0 m.data_len (omega arith))

      p : Pushed limit m (control w i) (push limit m (control w i))
      p =
          push-Pushed limit m (control w i) r.counted
            (len-le-max_queue_bytes (send_topic w i).max_bitrate m.data_len)
            (omega (arith, le, small)) (omega (arith, r.within, small, h))

      own : control (enqueue_send_message i m w) i ≡ push limit m (control w i)
      own = get_or-modify_self w.controls i (push limit m) no_control (rw r.controls tracked)

  pub queued-Relayed :
      (m : Message) (ms : List Message) (w : World W)
      → m.data_len ≤ longest
      → Relayed i longest w₀ ms w
      → Relayed i longest w₀ (ms ++ m ∷ []) (enqueue_send_message i m w)
  unfolding enqueue_send_message
  queued-Relayed m ms w h r = record {
    idle = record { inactive = r.idle.inactive; steady = r.idle.steady };
    written = r.written;
    lined = queued-Lined m ms r.written w h r.lined;
  }
