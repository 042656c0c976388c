-- ===== src/SendThread.antt =====
-- The token-bucket thread of a topic with a `max_bitrate`: `send_func` of src/sim_comm.cpp, and the
-- start and stop of these threads. One round of its loops is a function of the state at its wake-up;
-- a wait ends whenever it likes, and the next round looks again.
pub mod Rounds
pub mod Tokens
pub mod Stale
pub mod Loop
pub mod Relay
pub mod InOrder
pub mod Merged
pub mod InWindow
pub mod Drain
pub mod Replayed
pub mod Episode
use swarm_ros_bridge.Common.{
  ℕ, zero, suc, ◌+◌, ◌-◌, Bool, true, false, not, Option, none, some, List, [], ◌∷◌, map, replicate,
  if◌then◌else◌, modify, ◌>>=◌, get_or,
}
use swarm_ros_bridge.Double.{
  Double, lit, add, sub, mul, div, le, lt, of_size, nought, max_of, min_of,
}
use swarm_ros_bridge.Topic.{TopicInfo, Message}
use swarm_ros_bridge.World.{World, SendControl, send_topic, control}
use swarm_ros_bridge.SendQueue.{sub_size, bitrate_queue_window_sec}
use swarm_ros_bridge.Replay.{send_serialized_message}
use swarm_ros_bridge.Dispatch.{consume_send_message_if_fault_active, unless_taken}

-- The thread's own variables.
pub record Bucket (W : Type 0) : Type 0 where
  pub available_tokens : W
  pub last_refill_time : ℕ

-- How a round ends: the thread returns; it waits for a message; it waits for tokens, at most so many
-- seconds; or it takes the oldest message off the queue.
pub data Round (W : Type 0) : Type 0 where
  exits : Round W
  waits : Round W
  retries : W → Bucket W → Round W
  takes : Message → Bucket W → SendControl → Round W

module _ {W : Type 0} ⦃d : Double W⦄ where
  abbrev pub bytes_per_second : W → W
  bytes_per_second max_bitrate = div max_bitrate (lit 8 0)

  abbrev pub base_bucket_capacity : W → W
  base_bucket_capacity rate = max_of (lit 1 0) (mul rate bitrate_queue_window_sec)

  unfoldable pub start_bucket : W → ℕ → Bucket W
  start_bucket rate now = record {
    available_tokens = base_bucket_capacity rate;
    last_refill_time = now;
  }

  abbrev pub elapsed : ℕ → Bucket W → W
  elapsed now b = d.of_nanos (now - b.last_refill_time)

  abbrev pub bucket_capacity : W → Message → W
  bucket_capacity rate m = max_of (base_bucket_capacity rate) (of_size m.data_len)

  -- The tokens after the refill at `now`, with `m` at the front.
  abbrev pub refill : W → ℕ → Message → Bucket W → W
  refill rate now m b =
      min_of (bucket_capacity rate m) (add b.available_tokens (mul (elapsed now b) rate))

  pub take_front : W → ℕ → Bucket W → SendControl → List Message → Round W
  take_front rate now b c [] = waits
  take_front rate now b c (m ∷ q) =
      let tokens = refill rate now m b in
      if le (of_size m.data_len) tokens
      then takes m
          (record { available_tokens = sub tokens (of_size m.data_len); last_refill_time = now })
          (record c { queue = q; queue_bytes = sub_size c.queue_bytes m.data_len })
      else retries (min_of (div (sub (of_size m.data_len) tokens) rate) (lit 2 2))
          (record { available_tokens = tokens; last_refill_time = now })

  -- The inner loop: the stop flag is looked at first.
  unfoldable pub send_round : W → ℕ → Bucket W → SendControl → Round W
  unfolding take_front
  send_round rate now b c = if not c.thread_flag then exits else take_front rate now b c c.queue

  -- What the thread does with a round: a message taken is checked against the fault once more, with
  -- two readings of the clock, and then written to ZMQ. `none`: the round took no message, or the
  -- check waits for a replay.
  unfoldable pub after_round : ℕ → ℕ → ℕ → World W → Round W → Option (World W)
  unfolding send_serialized_message
  after_round i t₁ t₂ w exits = none
  after_round i t₁ t₂ w waits = none
  after_round i t₁ t₂ w (retries t b) = none
  after_round i t₁ t₂ w (takes m b c) =
      unless_taken
        (consume_send_message_if_fault_active i m t₁ t₂
          (record w { controls = modify w.controls i (λ _. c) }))
        (λ v. some (send_serialized_message i m v))

  unfoldable pub send_func : ℕ → ℕ → ℕ → ℕ → Bucket W → World W → Option (World W)
  unfolding send_round after_round
  send_func i now t₁ t₂ b w =
      after_round i t₁ t₂ w
        (send_round (bytes_per_second (send_topic w i).max_bitrate) now b (control w i))

  -- The life of the threads. All of a topic's entries are made together.
  unfoldable pub initialize_send_bitrate_control : ℕ → World W → World W
  initialize_send_bitrate_control topic_count w = record w {
    controls =
        replicate topic_count
          (record { thread_flag = true; joinable = false; queue = []; queue_bytes = 0 });
  }

  unfoldable pub start_threads : List (TopicInfo W) → List SendControl → List SendControl
  start_threads [] cs = cs
  start_threads (t ∷ ts) [] = []
  start_threads (t ∷ ts) (c ∷ cs) =
      (if lt nought t.max_bitrate then record c { joinable = true } else c) ∷ start_threads ts cs

  unfoldable pub start_send_bitrate_threads : World W → World W
  unfolding start_threads
  start_send_bitrate_threads w = record w { controls = start_threads w.send_topics w.controls }

  -- The thread is told to stop, woken, and joined if it was started.
  unfoldable pub stop_send_bitrate_control : ℕ → World W → World W
  stop_send_bitrate_control i w = if le (send_topic w i).max_bitrate nought then w else record w {
    controls = modify w.controls i (λ c. record c { thread_flag = false; joinable = false });
  }
