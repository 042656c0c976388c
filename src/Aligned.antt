-- ===== src/Aligned.antt =====
-- The parallel vectors of src/sim_comm.cpp and the topic tables have one index: `topic_index` is in
-- range of each.
pub mod Run
pub mod Reach
use swarm_ros_bridge.Common.{
  ℕ, Bool, true, false, Option, none, some, List, [], ◌∷◌, if◌then◌else◌, length, length-modify,
  length-map, length-replicate, Bool-cases, inl, inr, arith, ◌≡◌, refl, sym, ap, ◌∙◌, subst, modify,
}
use swarm_ros_bridge.Double.{Double}
use swarm_ros_bridge.Topic.{Message, TopicInfo, FaultPolicy}
use swarm_ros_bridge.World.{World, NodeFault, SendControl, is_limited}
use swarm_ros_bridge.Fault.{
  parse_policies, initialize_node_fault_control, start_node_fault, stop_node_fault_control,
}
use swarm_ros_bridge.Replay.{
  is_expired, begin_recovery, end_recovery, take_buffers, flush_fault_buffers,
  flush_expired_fault_if_needed, publish_received_message_after_fault, send_serialized_message,
}
use swarm_ros_bridge.Replay.Log.{SameSetup}
use swarm_ros_bridge.Replay.Recovery.{flush_fault_buffers-SameSetup}
use swarm_ros_bridge.SendQueue.{enqueue_send_message}
use swarm_ros_bridge.SendThread.{
  Round, exits, waits, retries, takes, after_round, send_func, start_threads,
  start_send_bitrate_threads, stop_send_bitrate_control,
}
use swarm_ros_bridge.Dispatch.{
  admit, hold_sent, hold_received, unless_taken, consume_send_message_if_fault_active,
  dispatch_send_message_after_fault, dispatch_send_message, dispatch_received_message, Call, sends,
  receives, run_call,
}
use swarm_ros_bridge.Monitor.{monitor_wake}

pub if-keeps {ℓ κ} :
    {A : Type ℓ} (P : A → Type κ) (b : Bool) (x y : A) → P x → P y → P (if b then x else y)
if-keeps P true x y p q = p
if-keeps P false x y p q = q

module _ {W : Type 0} ⦃d : Double W⦄ where
  pub record IsAligned (w : World W) : Type 0 where
    pub controls : length w.controls ≡ length w.send_topics
    pub send_policies : length w.fault.send_policies ≡ length w.send_topics
    pub recv_policies : length w.fault.recv_policies ≡ length w.recv_topics
    pub send_buffers : length w.fault.send_buffers ≡ length w.send_topics
    pub recv_buffers : length w.fault.recv_buffers ≡ length w.recv_topics

  -- A call that returns leaves an aligned state.
  abbrev pub AlignedIf : Option (World W) → Type 0
  AlignedIf none = Unit
  AlignedIf (some w) = IsAligned w

  abbrev pub AlignedTaken : Option (Bool × World W) → Type 0
  AlignedTaken none = Unit
  AlignedTaken (some (taken, w)) = IsAligned w

  pub recovered-IsAligned :
      (w : World W)
      → IsAligned w
      → IsAligned (end_recovery (flush_fault_buffers (begin_recovery w)))
  unfolding begin_recovery end_recovery take_buffers
  recovered-IsAligned w a =
      let s = flush_fault_buffers-SameSetup (begin_recovery w) in
      record {
        controls = s.controls ∙ a.controls ∙ sym (ap length s.send_topics);
        send_policies =
            ap (λ (f : NodeFault W). length f.send_policies) s.fault
            ∙ a.send_policies
            ∙ sym (ap length s.send_topics);
        recv_policies =
            ap (λ (f : NodeFault W). length f.recv_policies) s.fault
            ∙ a.recv_policies
            ∙ sym (ap length s.recv_topics);
        send_buffers =
            ap (λ (f : NodeFault W). length f.send_buffers) s.fault
            ∙ length-replicate _ _
            ∙ sym (ap length s.send_topics);
        recv_buffers =
            ap (λ (f : NodeFault W). length f.recv_buffers) s.fault
            ∙ length-replicate _ _
            ∙ sym (ap length s.recv_topics);
      }

  pub flush_expired-IsAligned :
      (now : ℕ) (w : World W) → IsAligned w → IsAligned (flush_expired_fault_if_needed now w)
  unfolding flush_expired_fault_if_needed
  flush_expired-IsAligned now w a =
      if-keeps IsAligned (is_expired now w) _ w (recovered-IsAligned w a) a

  pub hold_sent-IsAligned :
      (i : ℕ) (m : Message) (w : World W) → IsAligned w → IsAligned (hold_sent i m w)
  unfolding hold_sent
  hold_sent-IsAligned i m w a = record {
    controls = a.controls;
    send_policies = a.send_policies;
    recv_policies = a.recv_policies;
    send_buffers = length-modify w.fault.send_buffers i _ ∙ a.send_buffers;
    recv_buffers = a.recv_buffers;
  }

  pub hold_received-IsAligned :
      (i : ℕ) (m : Message) (w : World W) → IsAligned w → IsAligned (hold_received i m w)
  unfolding hold_received
  hold_received-IsAligned i m w a = record {
    controls = a.controls;
    send_policies = a.send_policies;
    recv_policies = a.recv_policies;
    send_buffers = a.send_buffers;
    recv_buffers = length-modify w.fault.recv_buffers i _ ∙ a.recv_buffers;
  }

  pub modify-IsAligned :
      (i : ℕ) (f : SendControl → SendControl) (w : World W)
      → IsAligned w
      → IsAligned (record w { controls = modify w.controls i f })
  modify-IsAligned i f w a = record {
    controls = length-modify w.controls i f ∙ a.controls;
    send_policies = a.send_policies;
    recv_policies = a.recv_policies;
    send_buffers = a.send_buffers;
    recv_buffers = a.recv_buffers;
  }
