-- ===== src/Dispatch/Resume.antt =====
-- Traffic goes on after an episode: the first message received or sent after the window.
use swarm_ros_bridge.Common.{
  ℕ, Bool, if◌then◌else◌, ◌+◌, ◌≤◌, ◌<◌, true, false, some, List, [], ◌∷◌, ◌++◌, append_assoc,
  length, ◌≡◌, refl, ap, ◌∙◌, ==_iff,
}
use swarm_ros_bridge.Double.{Double}
use swarm_ros_bridge.Topic.{Message}
use swarm_ros_bridge.World.{World, is_limited, send_policy, recv_policy, zmq_sent}
use swarm_ros_bridge.Fault.Policy.{retained}
use swarm_ros_bridge.Fault.{is_node_fault_active_locked, start_node_fault}
use swarm_ros_bridge.Replay.{
  flush_expired_fault_if_needed, publish_received_message_after_fault, send_serialized_message,
}
use swarm_ros_bridge.Replay.Log.{sent, shown, publish-shown, sent_on-append}
use swarm_ros_bridge.Dispatch.{
  admit, hold_received, hold_sent, dispatch_received_message, dispatch_send_message,
  dispatch_send_message_after_fault, consume_send_message_if_fault_active, run_calls, Call,
}
use swarm_ros_bridge.Dispatch.Calls.{AllBefore, sends_on, receives_on}
use swarm_ros_bridge.Dispatch.Recovery.{IsReady, flush_expired-Recovered}
use swarm_ros_bridge.Dispatch.Episode.{start-Windowed, Windowed-Replays}

module _ {W : Type 0} ⦃d : Double W⦄ where
  pub admit-idle :
      (hold : World W → World W) (t : ℕ) (u : World W)
      → u.fault.active ≡ false
      → u.fault.recovering ≡ false
      → admit hold t u ≡ some (false, u)
  unfolding admit is_node_fault_active_locked
  admit-idle hold t u a r = rw (r, a)

  pub flush-idle :
      (t : ℕ) (u : World W) → u.fault.active ≡ false → flush_expired_fault_if_needed t u ≡ u
  unfolding flush_expired_fault_if_needed
  flush-idle t u a = rw a

  pub receive-idle :
      (j : ℕ) (m : Message) (t₁ t₂ : ℕ) (v u : World W)
      → flush_expired_fault_if_needed t₁ v ≡ u
      → u.fault.active ≡ false
      → u.fault.recovering ≡ false
      → dispatch_received_message j m t₁ t₂ v ≡ some (publish_received_message_after_fault j m u)
  unfolding dispatch_received_message
  receive-idle j m t₁ t₂ v u e a r = rw (e, admit-idle (hold_received j m) t₂ u a r)

  pub send-idle :
      (j : ℕ) (m : Message) (t₁ t₂ t₃ t₄ : ℕ) (v u : World W)
      → flush_expired_fault_if_needed t₁ v ≡ u
      → u.fault.active ≡ false
      → u.fault.recovering ≡ false
      → is_limited u j ≡ false
      → dispatch_send_message j m t₁ t₂ t₃ t₄ v ≡ some (send_serialized_message j m u)
  unfolding dispatch_send_message dispatch_send_message_after_fault
      consume_send_message_if_fault_active
  send-idle j m t₁ t₂ t₃ t₄ v u e a r free = rw (
    e,
    admit-idle (hold_sent j m) t₂ u a r,
    free,
    flush-idle t₃ u a,
    admit-idle (hold_sent j m) t₄ u a r,
  )

  -- After a fault on a ready control with a callback, and any calls in its window, the first
  -- message received with a first reading of the clock not before the window's end returns, and
  -- its topic, if it has a buffer, has got what its policy retains of the window, and then that
  -- message.
  pub receive_after_episode :
      (now t₁ t₂ : ℕ) (duration : W) (w : World W) (cs : List Call) (j : ℕ) (m : Message)
      → IsReady w duration
      → w.fault.publish_callback ≡ true
      → AllBefore (now + d.to_nanos duration) cs
      → now + d.to_nanos duration ≤ t₁
      → j < length w.fault.recv_buffers
      → (v u : World W) × (run_calls cs (start_node_fault now duration w) ≡ some v)
        × (dispatch_received_message j m t₁ t₂ v ≡ some u)
        × (shown j u ≡ shown j w ++ (retained (recv_policy w.fault j) (receives_on j cs) ++ m ∷ []))
  receive_after_episode now t₁ t₂ duration w cs j m ready callback b h k =
      let (v, run, a) = start-Windowed now duration w cs ready b in
      let u = flush_expired_fault_if_needed t₁ v in
      let r = flush_expired-Recovered t₁ v a.active (rw a.until h) in
      let p = Windowed-Replays w v u _ cs callback a r in
      (
        v,
        publish_received_message_after_fault j m u,
        run,
        receive-idle j m t₁ t₂ v u refl r.inactive r.steady,
        publish-shown j j m u (r.callback ∙ a.callback ∙ callback)
            ∙ ap (λ (b : Bool). shown j u ++ (if b then m ∷ [] else [])) ((==_iff j j).1 refl)
            ∙ ap (λ (l : List Message). l ++ m ∷ []) (p.shown_all j k)
            ∙ append_assoc (shown j w) _ (m ∷ []),
      )

  -- After a fault on a ready control with a callback, and any calls in its window, the first
  -- message sent with a first reading of the clock not before the window's end returns, and its
  -- topic, if it has a buffer and no bitrate limit, has got what its policy retains of the window,
  -- and then that message.
  pub send_after_episode :
      (now t₁ t₂ t₃ t₄ : ℕ) (duration : W) (w : World W) (cs : List Call) (j : ℕ) (m : Message)
      → IsReady w duration
      → w.fault.publish_callback ≡ true
      → AllBefore (now + d.to_nanos duration) cs
      → now + d.to_nanos duration ≤ t₁
      → j < length w.fault.send_buffers
      → is_limited w j ≡ false
      → (v u : World W) × (run_calls cs (start_node_fault now duration w) ≡ some v)
        × (dispatch_send_message j m t₁ t₂ t₃ t₄ v ≡ some u)
        × (sent j u ≡ sent j w ++ (retained (send_policy w.fault j) (sends_on j cs) ++ m ∷ []))
  unfolding send_serialized_message
  send_after_episode now t₁ t₂ t₃ t₄ duration w cs j m ready callback b h k free =
      let (v, run, a) = start-Windowed now duration w cs ready b in
      let u = flush_expired_fault_if_needed t₁ v in
      let r = flush_expired-Recovered t₁ v a.active (rw a.until h) in
      let p = Windowed-Replays w v u _ cs callback a r in
      (
        v,
        send_serialized_message j m u,
        run,
        send-idle j m t₁ t₂ t₃ t₄ v u refl r.inactive r.steady (rw (r.topics, a.topics) free),
        sent_on-append j u.events (zmq_sent j m ∷ [])
            ∙ ap (λ (b : Bool). sent j u ++ (if b then m ∷ [] else [])) ((==_iff j j).1 refl)
            ∙ ap (λ (l : List Message). l ++ m ∷ []) (p.sent_free j k free)
            ∙ append_assoc (sent j w) _ (m ∷ []),
      )
