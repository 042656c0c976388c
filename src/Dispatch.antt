-- ===== src/Dispatch.antt =====
-- The entry points of src/sim_comm.cpp for messages: `dispatch_send_message`,
-- `dispatch_received_message` and the check before a write to ZMQ.
-- Each reading of the steady clock within a call is an argument. A result `none` is a call that
-- waits on node_fault_condition while another thread replays.
pub mod Calls
pub mod Window
pub mod Recovery
pub mod Episode
pub mod Resume
pub mod Restart
pub mod Order
use swarm_ros_bridge.Common.{
  ℕ, Bool, true, false, Option, none, some, List, [], ◌∷◌, if◌then◌else◌, get_or, modify, ◌>>=◌,
}
use swarm_ros_bridge.Double.{Double}
use swarm_ros_bridge.Topic.{Message, FaultPolicy}
use swarm_ros_bridge.World.{World, is_limited, send_policy, recv_policy}
use swarm_ros_bridge.Fault.Policy.{apply_fault_policy_to_buffer}
use swarm_ros_bridge.Fault.{is_node_fault_active_locked}
use swarm_ros_bridge.SendQueue.{enqueue_send_message}
use swarm_ros_bridge.Replay.{
  send_serialized_message, publish_received_message_after_fault, flush_expired_fault_if_needed,
}

module _ {W : Type 0} ⦃d : Double W⦄ where
  unfoldable pub hold_sent : ℕ → Message → World W → World W
  hold_sent i m w = record w {
    fault = record w.fault {
      send_buffers =
          modify w.fault.send_buffers i (apply_fault_policy_to_buffer (send_policy w.fault i) m);
    };
  }

  unfoldable pub hold_received : ℕ → Message → World W → World W
  hold_received i m w = record w {
    fault = record w.fault {
      recv_buffers =
          modify w.fault.recv_buffers i (apply_fault_policy_to_buffer (recv_policy w.fault i) m);
    };
  }

  -- The locked block: wait out a replay; hold the message if the fault window is open at `now`.
  unfoldable pub admit : (World W → World W) → ℕ → World W → Option (Bool × World W)
  unfolding is_node_fault_active_locked
  admit hold now w =
      if w.fault.recovering
      then none
      else if is_node_fault_active_locked now w.fault
      then some (true, hold w)
      else some (false, w)

  -- `true`: the fault policy has taken the message.
  unfoldable pub consume_send_message_if_fault_active :
      ℕ → Message → ℕ → ℕ → World W → Option (Bool × World W)
  unfolding admit hold_sent
  consume_send_message_if_fault_active i m now now' w =
      admit (hold_sent i m) now' (flush_expired_fault_if_needed now w)

  -- Runs `pass` on the state if the message was not taken.
  abbrev pub unless_taken :
      Option (Bool × World W) → (World W → Option (World W)) → Option (World W)
  unless_taken none pass = none
  unless_taken (some (true, w)) pass = some w
  unless_taken (some (false, w)) pass = pass w

  -- `dispatch_send_message_after_fault(i, m, true)`.
  unfoldable pub dispatch_send_message_after_fault :
      ℕ → Message → ℕ → ℕ → World W → Option (World W)
  dispatch_send_message_after_fault i m now now' w =
      if is_limited w i
      then some (enqueue_send_message i m w)
      else unless_taken (consume_send_message_if_fault_active i m now now' w)
          (λ v. some (send_serialized_message i m v))

  unfoldable pub dispatch_send_message : ℕ → Message → ℕ → ℕ → ℕ → ℕ → World W → Option (World W)
  unfolding admit hold_sent dispatch_send_message_after_fault
  dispatch_send_message i m t₁ t₂ t₃ t₄ w =
      unless_taken (admit (hold_sent i m) t₂ (flush_expired_fault_if_needed t₁ w))
        (dispatch_send_message_after_fault i m t₃ t₄)

  unfoldable pub dispatch_received_message : ℕ → Message → ℕ → ℕ → World W → Option (World W)
  unfolding admit hold_received
  dispatch_received_message i m t₁ t₂ w =
      unless_taken (admit (hold_received i m) t₂ (flush_expired_fault_if_needed t₁ w))
        (λ v. some (publish_received_message_after_fault i m v))

-- One call of either entry point, with its readings of the clock.
pub data Call : Type 0 where
  sends : ℕ → Message → ℕ → ℕ → ℕ → ℕ → Call
  receives : ℕ → Message → ℕ → ℕ → Call

module _ {W : Type 0} ⦃d : Double W⦄ where
  unfoldable pub run_call : Call → World W → Option (World W)
  run_call (sends i m t₁ t₂ t₃ t₄) w = dispatch_send_message i m t₁ t₂ t₃ t₄ w
  run_call (receives i m t₁ t₂) w = dispatch_received_message i m t₁ t₂ w

  unfoldable pub run_calls : List Call → World W → Option (World W)
  unfolding run_call
  run_calls [] w = some w
  run_calls (c ∷ cs) w = do v ← run_call c w; run_calls cs v
