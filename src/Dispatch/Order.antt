-- ===== src/Dispatch/Order.antt =====
-- Whether a new message can come ahead of the messages that a fault window holds back.
use swarm_ros_bridge.Common.{
  ℕ, Bool, ◌≤◌, ◌<◌, ◌⊎◌, inl, inr, true, false, some, List, [], ◌∷◌, ◌++◌, append_assoc, get_or,
  ◌≡◌, refl, ap, ◌∙◌, ==_iff, le→ltb, arith, if◌then◌else◌,
}
use native.Mathlib.Decide.{dec_lt}
use swarm_ros_bridge.Double.{Double}
use swarm_ros_bridge.Topic.{Message}
use swarm_ros_bridge.World.{World, is_limited, zmq_sent}
use swarm_ros_bridge.Fault.{is_node_fault_active_locked}
use swarm_ros_bridge.Replay.{
  flush_expired_fault_if_needed, publish_received_message_after_fault, send_serialized_message,
}
use swarm_ros_bridge.Replay.Log.{sent, shown, publish-shown, sent_on-append}
use swarm_ros_bridge.Dispatch.{
  admit, hold_received, hold_sent, dispatch_received_message, dispatch_send_message,
  dispatch_send_message_after_fault, consume_send_message_if_fault_active,
}
use swarm_ros_bridge.Dispatch.Window.{IsOpen, flush-open, dispatch_send-open}
use swarm_ros_bridge.Dispatch.Recovery.{Recovered, flush_expired-Recovered}
use swarm_ros_bridge.Dispatch.Resume.{admit-idle, send-idle}

module _ {W : Type 0} ⦃d : Double W⦄ where
  -- The second reading of the clock finds the window over: the message is let through.
  admit-late :
      (hold : World W → World W) (t : ℕ) (v : World W)
      → v.fault.recovering ≡ false
      → v.fault.until ≤ t
      → admit hold t v ≡ some (false, v)
  unfolding admit is_node_fault_active_locked
  admit-late hold t v r h = ground (arith, le→ltb t v.fault.until h)

  -- When an open window ends between the two readings of the clock in a receive call, and there is
  -- a callback, the message is published at once, and the messages held before it stay in their
  -- buffers, unpublished.
  pub receive_overtakes :
      (j : ℕ) (m : Message) (t₁ t₂ : ℕ) (v : World W)
      → IsOpen v.fault
      → v.fault.publish_callback ≡ true
      → t₁ < v.fault.until
      → v.fault.until ≤ t₂
      → (u : World W) × (dispatch_received_message j m t₁ t₂ v ≡ some u)
        × (shown j u ≡ shown j v ++ m ∷ [])
        × (u.fault ≡ v.fault)
  unfolding dispatch_received_message publish_received_message_after_fault
  receive_overtakes j m t₁ t₂ v o callback h k = (
    publish_received_message_after_fault j m v,
    rw (flush-open t₁ v h, admit-late (hold_received j m) t₂ v o.steady k),
    publish-shown j j m v callback
        ∙ ap (λ (b : Bool). shown j v ++ (if b then m ∷ [] else [])) ((==_iff j j).1 refl),
    rw callback,
  )

  -- A send call that ends up on the wire after the window's end has let the recovery go first.
  late-send :
      (j : ℕ) (m : Message) (t₁ t₂ t₃ t₄ : ℕ) (v u : World W)
      → IsOpen v.fault
      → is_limited v j ≡ false
      → t₁ < v.fault.until
      → v.fault.until ≤ t₂
      → flush_expired_fault_if_needed t₃ v ≡ u
      → u.fault.active ≡ false
      → u.fault.recovering ≡ false
      → dispatch_send_message j m t₁ t₂ t₃ t₄ v ≡ some (send_serialized_message j m u)
  unfolding dispatch_send_message dispatch_send_message_after_fault
      consume_send_message_if_fault_active
  late-send j m t₁ t₂ t₃ t₄ v u o free h k e a r = rw (
    flush-open t₁ v h,
    admit-late (hold_sent j m) t₂ v o.steady k,
    free,
    e,
    admit-idle (hold_sent j m) t₄ u a r,
  )

  sent-after :
      (j : ℕ) (m : Message) (v u : World W)
      → is_limited v j ≡ false
      → Recovered v u
      → sent j (send_serialized_message j m u)
        ≡ sent j v ++ (get_or v.fault.send_buffers j [] ++ m ∷ [])
  unfolding send_serialized_message
  sent-after j m v u free r =
      sent_on-append j u.events (zmq_sent j m ∷ [])
      ∙ ap (λ (b : Bool). sent j u ++ (if b then m ∷ [] else [])) ((==_iff j j).1 refl)
      ∙ ap (λ (l : List Message). l ++ m ∷ []) (r.sent_free j free)
      ∙ append_assoc (sent j v) _ (m ∷ [])

  -- What a send call shows on its topic: nothing yet, or all that was held and then its message.
  abbrev pub InOrder : ℕ → Message → World W → World W → Type 0
  InOrder j m v u =
      ((u ≡ hold_sent j m v) × (sent j u ≡ sent j v))
      ⊎ (sent j u ≡ sent j v ++ (get_or v.fault.send_buffers j [] ++ m ∷ []))

  sent-hold : (j : ℕ) (m : Message) (v : World W) → sent j (hold_sent j m v) ≡ sent j v
  unfolding hold_sent
  sent-hold j m v = refl

  abbrev Ordered : ℕ → Message → ℕ → ℕ → ℕ → ℕ → World W → Type 0
  Ordered j m t₁ t₂ t₃ t₄ v =
      (u : World W) × (dispatch_send_message j m t₁ t₂ t₃ t₄ v ≡ some u) × InOrder j m v u

  module _ (j : ℕ) (m : Message) (t₁ t₂ t₃ t₄ : ℕ) (v : World W) (o : IsOpen v.fault)
      (free : is_limited v j ≡ false) where
    early-Ordered : t₁ < v.fault.until → t₂ < v.fault.until → Ordered j m t₁ t₂ t₃ t₄ v
    early-Ordered h k =
        (hold_sent j m v, dispatch_send-open j m t₁ t₂ t₃ t₄ v o h k, inl (refl, sent-hold j m v))

    late-Ordered :
        t₁ < v.fault.until → v.fault.until ≤ t₂ → v.fault.until ≤ t₃ → Ordered j m t₁ t₂ t₃ t₄ v
    late-Ordered h k l =
        let u = flush_expired_fault_if_needed t₃ v in
        let r = flush_expired-Recovered t₃ v o.active l in
        (
          send_serialized_message j m u,
          late-send j m t₁ t₂ t₃ t₄ v u o free h k refl r.inactive r.steady,
          inr (sent-after j m v u free r),
        )

    past-Ordered : v.fault.until ≤ t₁ → Ordered j m t₁ t₂ t₃ t₄ v
    past-Ordered h =
        let u = flush_expired_fault_if_needed t₁ v in
        let r = flush_expired-Recovered t₁ v o.active h in
        (
          send_serialized_message j m u,
          send-idle j m t₁ t₂ t₃ t₄ v u refl r.inactive r.steady (rw r.topics free),
          inr (sent-after j m v u free r),
        )

  -- In an open window, on a topic with no bitrate limit, a send call never waits and never
  -- overtakes, wherever its readings of the clock fall about the window's end, the first three in
  -- their order: it hands its message to the fault policy and sends nothing, or it writes all that
  -- the window held back and then its message.
  pub dispatch_send_message-InOrder :
      (j : ℕ) (m : Message) (t₁ t₂ t₃ t₄ : ℕ) (v : World W)
      → IsOpen v.fault
      → is_limited v j ≡ false
      → t₁ ≤ t₂
      → t₂ ≤ t₃
      → (u : World W) × (dispatch_send_message j m t₁ t₂ t₃ t₄ v ≡ some u) × InOrder j m v u
  dispatch_send_message-InOrder j m t₁ t₂ t₃ t₄ v o free h k = elim (dec_lt t₁ v.fault.until) [
    | yes p ↦ elim (dec_lt t₂ v.fault.until) [
      | yes q ↦ early-Ordered j m t₁ t₂ t₃ t₄ v o free p q
      | no q ↦ late-Ordered j m t₁ t₂ t₃ t₄ v o free p (omega arith) (omega arith)
    ]
    | no p ↦ past-Ordered j m t₁ t₂ t₃ t₄ v o free (omega arith)
  ]
