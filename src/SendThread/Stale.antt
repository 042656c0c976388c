-- ===== src/SendThread/Stale.antt =====
-- A queued message that the send thread takes during a fault window.
use swarm_ros_bridge.Common.{
  ℕ, ◌<◌, some, [], ◌∷◌, length, length-modify, get_or, get_or-modify_self, modify, ◌≡◌, ap, ◌∙◌,
}
use swarm_ros_bridge.Double.{Double}
use swarm_ros_bridge.Topic.{Message, FaultPolicy, latest}
use swarm_ros_bridge.World.{World, SendControl, control, send_topic, send_policy}
use swarm_ros_bridge.Fault.Policy.{apply_fault_policy_to_buffer}
use swarm_ros_bridge.Dispatch.{
  hold_sent, dispatch_send_message, consume_send_message_if_fault_active,
}
use swarm_ros_bridge.Dispatch.Window.{IsOpen, flush-open, admit-open, dispatch_send-open}
use swarm_ros_bridge.SendThread.{
  Bucket, takes, bytes_per_second, send_round, after_round, send_func,
}

module _ {W : Type 0} ⦃d : Double W⦄ where
  -- The state when the thread has taken a message off the queue of topic `i`.
  abbrev taken : ℕ → SendControl → World W → World W
  taken i c w = record w { controls = modify w.controls i (λ _. c) }

  send_func-open :
      (i now t₁ t₂ : ℕ) (b b' : Bucket W) (c' : SendControl) (m : Message) (w : World W)
      → IsOpen w.fault
      → t₁ < w.fault.until
      → t₂ < w.fault.until
      → send_round (bytes_per_second (send_topic w i).max_bitrate) now b (control w i)
        ≡ takes m b' c'
      → send_func i now t₁ t₂ b w ≡ some (hold_sent i m (taken i c' w))
  unfolding send_func consume_send_message_if_fault_active after_round
  send_func-open i now t₁ t₂ b b' c' m w o h k e = rw (
    e,
    after_round,
    flush-open t₁ (taken i c' w) h,
    admit-open (hold_sent i m) t₂ (taken i c' w) o k,
  )

  hold_sent-latest :
      (i : ℕ) (m : Message) (w : World W)
      → send_policy w.fault i ≡ latest
      → i < length w.fault.send_buffers
      → get_or (hold_sent i m w).fault.send_buffers i [] ≡ m ∷ []
  unfolding hold_sent apply_fault_policy_to_buffer
  hold_sent-latest i m w p h =
      get_or-modify_self w.fault.send_buffers i _ [] h
      ∙ ap
          (λ (q : FaultPolicy). apply_fault_policy_to_buffer q m (get_or w.fault.send_buffers i []))
          p

  -- In an open window, on a send topic with a buffer and the policy `latest`, a message that
  -- arrives is held, and then a message that the topic's send thread takes off its queue in the
  -- window, where it was before, replaces it in the buffer.
  pub latest_goes_stale :
      (i now t₁ t₂ t₃ t₄ t₅ t₆ : ℕ) (b b' : Bucket W) (c' : SendControl) (old new : Message)
      (w : World W)
      → IsOpen w.fault
      → send_policy w.fault i ≡ latest
      → i < length w.fault.send_buffers
      → t₁ < w.fault.until
      → t₂ < w.fault.until
      → t₅ < w.fault.until
      → t₆ < w.fault.until
      → send_round (bytes_per_second (send_topic w i).max_bitrate) now b (control w i)
        ≡ takes old b' c'
      → (v u : World W) × (dispatch_send_message i new t₁ t₂ t₃ t₄ w ≡ some v)
        × (get_or v.fault.send_buffers i [] ≡ new ∷ [])
        × (send_func i now t₅ t₆ b v ≡ some u)
        × (get_or u.fault.send_buffers i [] ≡ old ∷ [])
  unfolding hold_sent
  latest_goes_stale i now t₁ t₂ t₃ t₄ t₅ t₆ b b' c' old new w o p k h₁ h₂ h₅ h₆ e =
      let v = hold_sent i new w in
      (
        v,
        hold_sent i old (taken i c' v),
        dispatch_send-open i new t₁ t₂ t₃ t₄ w o h₁ h₂,
        hold_sent-latest i new w p k,
        send_func-open i now t₅ t₆ b b' c' old v (record { active = o.active; steady = o.steady })
            h₅ h₆ e,
        hold_sent-latest i old (taken i c' v) p (rw (length-modify w.fault.send_buffers i _) k),
      )
