-- ===== src/Aligned/Run.antt =====
-- Every operation on the shared state keeps the vectors in step with the topic tables.
use swarm_ros_bridge.Common.{ℕ, Bool, true, false, Option, none, some}
use swarm_ros_bridge.Double.{Double}
use swarm_ros_bridge.Topic.{Message}
use swarm_ros_bridge.World.{World, is_limited}
use swarm_ros_bridge.Fault.{is_node_fault_active_locked}
use swarm_ros_bridge.Replay.{publish_received_message_after_fault, send_serialized_message}
use swarm_ros_bridge.SendQueue.{enqueue_send_message}
use swarm_ros_bridge.SendThread.{Round, exits, waits, retries, takes, after_round}
use swarm_ros_bridge.Dispatch.{
  admit, hold_sent, hold_received, unless_taken, consume_send_message_if_fault_active,
  dispatch_send_message_after_fault, dispatch_send_message, dispatch_received_message, Call, sends,
  receives, run_call,
}
use swarm_ros_bridge.Aligned.{
  if-keeps, IsAligned, AlignedIf, AlignedTaken, flush_expired-IsAligned, hold_sent-IsAligned,
  hold_received-IsAligned, modify-IsAligned,
}

module _ {W : Type 0} ⦃d : Double W⦄ where
  admit-IsAligned :
      (hold : World W → World W) (now : ℕ) (w : World W)
      → IsAligned w
      → IsAligned (hold w)
      → AlignedTaken (admit hold now w)
  unfolding admit
  admit-IsAligned hold now w a h = if-keeps AlignedTaken w.fault.recovering none _ tt (
      if-keeps AlignedTaken (is_node_fault_active_locked now w.fault) (some (true, hold w))
        (some (false, w)) h a)

  unless_taken-IsAligned :
      (r : Option (Bool × World W)) (pass : World W → Option (World W))
      → AlignedTaken r
      → ((v : World W) → IsAligned v → AlignedIf (pass v))
      → AlignedIf (unless_taken r pass)
  unless_taken-IsAligned none pass a p = tt
  unless_taken-IsAligned (some (true, w)) pass a p = a
  unless_taken-IsAligned (some (false, w)) pass a p = p w a

  enqueue-IsAligned :
      (i : ℕ) (m : Message) (w : World W) → IsAligned w → IsAligned (enqueue_send_message i m w)
  unfolding enqueue_send_message
  enqueue-IsAligned i m w a = modify-IsAligned i _ w a

  write-IsAligned :
      (i : ℕ) (m : Message) (w : World W) → IsAligned w → IsAligned (send_serialized_message i m w)
  unfolding send_serialized_message
  write-IsAligned i m w a = record {
    controls = a.controls;
    send_policies = a.send_policies;
    recv_policies = a.recv_policies;
    send_buffers = a.send_buffers;
    recv_buffers = a.recv_buffers;
  }

  publish-IsAligned :
      (i : ℕ) (m : Message) (w : World W)
      → IsAligned w
      → IsAligned (publish_received_message_after_fault i m w)
  unfolding publish_received_message_after_fault
  publish-IsAligned i m w a =
      if-keeps IsAligned w.fault.publish_callback _ w
        (record {
          controls = a.controls;
          send_policies = a.send_policies;
          recv_policies = a.recv_policies;
          send_buffers = a.send_buffers;
          recv_buffers = a.recv_buffers;
        })
        a

  -- The last check before a write, on the direct way and in a send thread.
  checked-IsAligned :
      (i : ℕ) (m : Message) (t t' : ℕ) (w : World W)
      → IsAligned w
      → AlignedIf (
          unless_taken
            (consume_send_message_if_fault_active i m t t' w)
            (λ v. some (send_serialized_message i m v)))
  unfolding consume_send_message_if_fault_active
  checked-IsAligned i m t t' w a =
      let f = flush_expired-IsAligned t w a in
      unless_taken-IsAligned _ _
        (admit-IsAligned (hold_sent i m) t' _ f (hold_sent-IsAligned i m _ f))
        (λ v b. write-IsAligned i m v b)

  pub run_call-IsAligned : (c : Call) (w : World W) → IsAligned w → AlignedIf (run_call c w)
  unfolding run_call dispatch_send_message dispatch_received_message
      dispatch_send_message_after_fault
  run_call-IsAligned (sends i m t₁ t₂ t₃ t₄) w a =
      let f = flush_expired-IsAligned t₁ w a in
      unless_taken-IsAligned _ _
        (admit-IsAligned (hold_sent i m) t₂ _ f (hold_sent-IsAligned i m _ f))
        (λ v b.
          if-keeps AlignedIf (is_limited v i) (some (enqueue_send_message i m v)) _
            (enqueue-IsAligned i m v b) (checked-IsAligned i m t₃ t₄ v b))
  run_call-IsAligned (receives i m t₁ t₂) w a =
      let f = flush_expired-IsAligned t₁ w a in
      unless_taken-IsAligned _ _
        (admit-IsAligned (hold_received i m) t₂ _ f (hold_received-IsAligned i m _ f))
        (λ v b. publish-IsAligned i m v b)

  pub after_round-IsAligned :
      (i t₁ t₂ : ℕ) (w : World W) (r : Round W) → IsAligned w → AlignedIf (after_round i t₁ t₂ w r)
  unfolding after_round
  after_round-IsAligned i t₁ t₂ w exits a = tt
  after_round-IsAligned i t₁ t₂ w waits a = tt
  after_round-IsAligned i t₁ t₂ w (retries t b) a = tt
  after_round-IsAligned i t₁ t₂ w (takes m b c) a =
      checked-IsAligned i m t₁ t₂ _ (modify-IsAligned i (λ _. c) w a)
