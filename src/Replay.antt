-- ===== src/Replay.antt =====
-- Recovery: `flush_fault_buffers` and `flush_expired_fault_if_needed` of src/sim_comm.cpp, with the
-- two ways out of the module that they use.
pub mod Log
pub mod Recovery
use swarm_ros_bridge.Common.{
  ℕ, suc, ◌+◌, Bool, true, false, ◌&&◌, List, [], ◌∷◌, map, replicate, length, ltb, leb, ltb_ℤ, pos,
  if◌then◌else◌,
}
use swarm_ros_bridge.Double.{Double, lt, lit, mul, div, of_size, nought}
use swarm_ros_bridge.Topic.{TopicInfo, Message}
use swarm_ros_bridge.World.{World, Event, zmq_sent, published, slept, log, send_topic, is_limited}
use swarm_ros_bridge.SendQueue.{enqueue_send_message}

module _ {W : Type 0} ⦃d : Double W⦄ where
  abbrev pub default_replay_interval : W
  default_replay_interval = lit 1 2

  abbrev pub fault_replay_rate_multiplier : W
  fault_replay_rate_multiplier = lit 2 0

  unfoldable pub get_fault_replay_interval : ℕ → Bool → World W → W
  get_fault_replay_interval i is_send_topic w =
      if is_send_topic && ltb_ℤ (pos 0) (send_topic w i).max_freq
      then div (lit 1 0) (mul (d.of_int (send_topic w i).max_freq) fault_replay_rate_multiplier)
      else default_replay_interval

  unfoldable pub get_recv_fault_replay_interval : ℕ → W → W
  get_recv_fault_replay_interval message_count fault_duration_sec =
      if ltb 1 message_count && lt nought fault_duration_sec
      then div fault_duration_sec (mul (of_size message_count) fault_replay_rate_multiplier)
      else default_replay_interval

  unfoldable pub send_serialized_message : ℕ → Message → World W → World W
  send_serialized_message i m w = log (zmq_sent i m) w

  unfoldable pub publish_received_message_after_fault : ℕ → Message → World W → World W
  publish_received_message_after_fault i m w =
      if w.fault.publish_callback then log (published i m) w else w

  -- `dispatch_send_message_after_fault(i, m, false)`: a replayed message is not checked again.
  unfoldable pub replay_send_message : ℕ → Message → World W → World W
  unfolding send_serialized_message
  replay_send_message i m w =
      if is_limited w i then enqueue_send_message i m w else send_serialized_message i m w

  -- The inner loops: one topic's messages in order, a pause before each but the first.
  unfoldable pub pause : Bool → W → World W → World W
  pause is_first interval w = if is_first then w else log (slept interval) w

  unfoldable pub replay :
      (Message → World W → World W) → W → Bool → List Message → World W → World W
  unfolding pause
  replay release interval is_first [] w = w
  replay release interval is_first (m ∷ ms) w =
      replay release interval false ms (release m (pause is_first interval w))

  -- The outer loops, over the topics.
  unfoldable pub replay_sends : ℕ → List (List Message) → World W → World W
  unfolding replay
  replay_sends i [] w = w
  replay_sends i (ms ∷ rest) w =
      replay_sends (suc i) rest
        (replay (replay_send_message i) (get_fault_replay_interval i true w) true ms w)

  unfoldable pub replay_recvs : ℕ → W → List (List Message) → World W → World W
  unfolding replay
  replay_recvs i duration [] w = w
  replay_recvs i duration (ms ∷ rest) w = replay_recvs (suc i) duration rest (
      replay (publish_received_message_after_fault i)
        (get_recv_fault_replay_interval (length ms) duration) true ms w)

  -- Swaps the buffers out under the lock, then replays with the lock released.
  unfoldable pub take_buffers : World W → World W
  take_buffers w = record w {
    fault = record w.fault {
      send_buffers = replicate (length w.send_topics) [];
      recv_buffers = replicate (length w.recv_topics) [];
    };
  }

  unfoldable pub flush_fault_buffers : World W → World W
  unfolding take_buffers replay_sends replay_recvs
  flush_fault_buffers w =
      replay_recvs 0 w.fault.duration_sec w.fault.recv_buffers
        (replay_sends 0 w.fault.send_buffers (take_buffers w))

  -- A fault that is over: active, and its end not after `now`.
  abbrev pub is_expired : ℕ → World W → Bool
  is_expired now w = w.fault.active && leb w.fault.until now

  unfoldable pub begin_recovery : World W → World W
  begin_recovery w = record w { fault = record w.fault { active = false; recovering = true } }

  unfoldable pub end_recovery : World W → World W
  end_recovery w = record w { fault = record w.fault { recovering = false } }

  unfoldable pub flush_expired_fault_if_needed : ℕ → World W → World W
  unfolding begin_recovery end_recovery flush_fault_buffers
  flush_expired_fault_if_needed now w =
      if is_expired now w then end_recovery (flush_fault_buffers (begin_recovery w)) else w
