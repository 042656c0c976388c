-- ===== src/SendQueue.antt =====
-- The bounded queue of a topic with a `max_bitrate`: `enqueue_send_message` of src/sim_comm.cpp.
pub mod Bounds
use swarm_ros_bridge.Common.{
  ℕ, ◌+◌, ◌-◌, ◌%◌, List, [], ◌∷◌, ◌++◌, ◌||◌, ltb, leb, if◌then◌else◌, length, modify,
}
use swarm_ros_bridge.Double.{Double, lit, mul, div}
use swarm_ros_bridge.Topic.{Message}
use swarm_ros_bridge.World.{World, SendControl, size_range, send_topic, control}

abbrev pub max_queue_messages : ℕ
max_queue_messages = 30

-- `send_queue_bytes += n` and `-= n` on a `size_t`.
abbrev pub add_size : ℕ → ℕ → ℕ
add_size a b = (a + b) % size_range

abbrev pub sub_size : ℕ → ℕ → ℕ
sub_size a b = (a + size_range - b) % size_range

-- `std::max` on `size_t`.
abbrev pub max_size : ℕ → ℕ → ℕ
max_size a b = if ltb a b then b else a

-- The while loop: drop the oldest message while the queue is too long or too big for `len` more.
pub evict : ℕ → ℕ → List Message → ℕ → List Message × ℕ
evict limit len [] bytes = ([], bytes)
evict limit len (m ∷ q) bytes =
    if leb max_queue_messages (length (m ∷ q)) || ltb limit (add_size bytes len)
    then evict limit len q (sub_size bytes m.data_len)
    else (m ∷ q, bytes)

unfoldable pub push : ℕ → Message → SendControl → SendControl
unfolding evict
push limit m c =
    let (q, bytes) = evict limit m.data_len c.queue c.queue_bytes in
    record c { queue = q ++ m ∷ []; queue_bytes = add_size bytes m.data_len }

module _ {W : Type 0} ⦃d : Double W⦄ where
  abbrev pub bitrate_queue_window_sec : W
  bitrate_queue_window_sec = lit 2 1

  -- `max_bitrate / 8.0 * BITRATE_QUEUE_WINDOW_SEC`, but always room for the message itself.
  unfoldable pub max_queue_bytes : W → ℕ → ℕ
  max_queue_bytes max_bitrate len =
      max_size (d.to_size (mul (div max_bitrate (lit 8 0)) bitrate_queue_window_sec)) len

  unfoldable pub enqueue_send_message : ℕ → Message → World W → World W
  unfolding max_queue_bytes push
  enqueue_send_message i m w =
      let limit = max_queue_bytes (send_topic w i).max_bitrate m.data_len in
      record w { controls = modify w.controls i (push limit m) }
