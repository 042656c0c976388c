-- ===== src/Threads/Calls.antt =====
-- The calls of Dispatch, each taken whole, are turns of the threads.
use swarm_ros_bridge.Common.{
  ℕ, ◌≤◌, Bool, true, false, Option, none, some, List, if◌then◌else◌, ◌≡◌, refl, sym, ap, ◌∙◌,
  subst, arith, Bool-cases, inl, inr, get_or, ◌⊎◌, some-inj,
}
use swarm_ros_bridge.Double.{Double, lt, nought}
use swarm_ros_bridge.Topic.{Message, TopicInfo}
use swarm_ros_bridge.World.{World, is_limited, no_topic}
use swarm_ros_bridge.Fault.{is_node_fault_active_locked}
use swarm_ros_bridge.Replay.{
  is_expired, begin_recovery, end_recovery, take_buffers, flush_expired_fault_if_needed,
  send_serialized_message, publish_received_message_after_fault,
}
use swarm_ros_bridge.Replay.Recovery.{flush_fault_buffers-SameSetup}
use swarm_ros_bridge.Aligned.{if-keeps}
use swarm_ros_bridge.SendQueue.{enqueue_send_message}
use swarm_ros_bridge.Dispatch.{
  admit, unless_taken, consume_send_message_if_fault_active, dispatch_send_message_after_fault,
  dispatch_send_message, dispatch_received_message,
}
use swarm_ros_bridge.Threads.{
  Tid, sender, receiver, Stage, first, second, in_call, Pc, idle, looks, locks, writes, System,
  passed, hold, hand_over,
}
use swarm_ros_bridge.Threads.Step.{Reach}
use swarm_ros_bridge.Threads.Turn.{Turn, waits_till, flushes, held, let_in, hands, given, turn_ends}

module _ {W : Type 0} ⦃d : Double W⦄ where
  -- How a locked block that does not wait comes out.
  block :
      (recovering active : Bool) (x w v : World W) (pass : World W → Option (World W))
      → unless_taken
          (if recovering then none else if active then some (true, x) else some (false, w))
          pass
        ≡ some v
      → (recovering ≡ false)
        × (((active ≡ true) × (x ≡ v)) ⊎ ((active ≡ false) × (pass w ≡ some v)))
  block true active x w v pass e = cc
  block false true x w v pass e = (refl, inl (refl, some-inj x v e))
  block false false x w v pass e = (refl, inr (refl, e))

  flush-limited :
      (i now : ℕ) (w : World W)
      → is_limited (flush_expired_fault_if_needed now w) i ≡ is_limited w i
  unfolding flush_expired_fault_if_needed begin_recovery end_recovery take_buffers
  flush-limited i now w =
      if-keeps (λ (u : World W). is_limited u i ≡ is_limited w i) (is_expired now w) _ _
        (ap (λ (ts : List (TopicInfo W)). lt nought (get_or ts i no_topic).max_bitrate)
          (flush_fault_buffers-SameSetup (begin_recovery w)).send_topics)
        refl

module _ {W : Type 0} ⦃d : Double W⦄ (Starts : World W → Type 0) (s : System W) (t : Tid) where
  abbrev pub On : World W → ℕ → Pc W → Type 0
  On w now p = Turn Starts s t w now p

  -- A locked block that does not wait, and what is made of a message that it lets through.
  pub admits :
      (g : Stage) (m : Message) (now later : ℕ) (w v : World W) (pass : World W → Option (World W))
      → now ≤ later
      → On w now (locks g m)
      → (On w now (passed t g m w) → pass w ≡ some v → On v later idle)
      → unless_taken (admit (hold t m) now w) pass ≡ some v
      → On v later idle
  unfolding admit
  admits g m now later w v pass h r k e =
      let (free, way) =
        block w.fault.recovering (is_node_fault_active_locked now w.fault) (hold t m w) w v pass
          e in
      elim way [
        | inl (open_yet, same) ↦
            waits_till Starts s t v now later idle h
              (subst (λ u. On u now idle) same (held Starts s t g m now w r free open_yet))
        | inr (over, e') ↦ k (let_in Starts s t g m now w r free over) e'
      ]

module _ {W : Type 0} ⦃d : Double W⦄ (Starts : World W → Type 0) (s : System W) where
  pub received-Reach :
      (i : ℕ) (m : Message) (t₁ t₂ : ℕ) (v : World W)
      → s.pc (receiver i) ≡ idle
      → s.clock ≤ t₁
      → t₁ ≤ t₂
      → dispatch_received_message i m t₁ t₂ s.world ≡ some v
      → Reach Starts s (record s { world = v; clock = t₂ })
  unfolding dispatch_received_message hold hand_over publish_received_message_after_fault
  received-Reach i m t₁ t₂ v e h₁ h₂ f =
      let t = receiver i in
      let a = in_call first m in
      let w₁ = flush_expired_fault_if_needed t₁ s.world in
      let r₁ = waits_till Starts s t s.world s.clock t₁ (looks a) h₁ (given Starts s t m refl e) in
      let r₂ =
        waits_till Starts s t w₁ t₁ t₂ (locks first m) h₂ (flushes Starts s t a t₁ s.world r₁) in
      turn_ends Starts s t v t₂ e (
        admits Starts s t first m t₂ t₂ w₁ v
          (λ u. some (publish_received_message_after_fault i m u)) (omega arith) r₂
          (λ r p.
            subst (λ u. Turn Starts s t u t₂ idle) (some-inj _ v p) (hands Starts s t m t₂ w₁ r))
          f)

  -- The second round of a send call on an unlimited topic, from its look at `t₃`.
  second-Turn :
      (i : ℕ) (m : Message) (t₃ t₄ : ℕ) (w v : World W)
      → t₃ ≤ t₄
      → is_limited w i ≡ false
      → Turn Starts s (sender i) w t₃ (looks (in_call second m))
      → unless_taken
          (consume_send_message_if_fault_active i m t₃ t₄ w)
          (λ u. some (send_serialized_message i m u))
        ≡ some v
      → Turn Starts s (sender i) v t₄ idle
  unfolding consume_send_message_if_fault_active hold hand_over send_serialized_message
  second-Turn i m t₃ t₄ w v h free r e =
      let t = sender i in
      let w₂ = flush_expired_fault_if_needed t₃ w in
      let free' = flush-limited i t₃ w ∙ free in
      let r₂ =
        waits_till Starts s t w₂ t₃ t₄ (locks second m) h
          (flushes Starts s t (in_call second m) t₃ w r) in
      admits Starts s t second m t₄ t₄ w₂ v (λ u. some (send_serialized_message i m u))
        (omega arith) r₂
        (λ q p.
          subst (λ u. Turn Starts s t u t₄ idle) (rw free' refl ∙ some-inj _ v p)
            (hands Starts s t m t₄ w₂ q))
        e

  -- What follows the first locked block of a send call.
  after-Turn :
      (i : ℕ) (m : Message) (t₂ t₃ t₄ : ℕ) (w v : World W)
      → t₂ ≤ t₃
      → t₃ ≤ t₄
      → Turn Starts s (sender i) w t₂ (passed (sender i) first m w)
      → dispatch_send_message_after_fault i m t₃ t₄ w ≡ some v
      → Turn Starts s (sender i) v t₄ idle
  unfolding dispatch_send_message_after_fault hand_over
  after-Turn i m t₂ t₃ t₄ w v h k r e = elim (Bool-cases (is_limited w i)) [
    | inl limited ↦
        let t = sender i in
        let place : passed t first m w ≡ writes m = rw limited refl in
        let result : dispatch_send_message_after_fault i m t₃ t₄ w
            ≡ some (enqueue_send_message i m w) =
          rw limited refl in
        let over : hand_over t m w ≡ v = rw limited (some-inj _ v (sym result ∙ e)) in
        waits_till Starts s t v t₂ t₄ idle (omega arith) (
          subst (λ u. Turn Starts s t u t₂ idle) over
            (hands Starts s t m t₂ w (subst (λ p. Turn Starts s t w t₂ p) place r)))
    | inr free ↦
        let t = sender i in
        let place : passed t first m w ≡ looks (in_call second m) = rw free refl in
        let result : dispatch_send_message_after_fault i m t₃ t₄ w
            ≡ unless_taken (consume_send_message_if_fault_active i m t₃ t₄ w)
                (λ u. some (send_serialized_message i m u)) =
          rw free refl in
        let there = subst (λ p. Turn Starts s t w t₂ p) place r in
        second-Turn i m t₃ t₄ w v k free
          (waits_till Starts s t w t₂ t₃ (looks (in_call second m)) h there) (sym result ∙ e)
  ]

  pub sent-Reach :
      (i : ℕ) (m : Message) (t₁ t₂ t₃ t₄ : ℕ) (v : World W)
      → s.pc (sender i) ≡ idle
      → s.clock ≤ t₁
      → t₁ ≤ t₂
      → t₂ ≤ t₃
      → t₃ ≤ t₄
      → dispatch_send_message i m t₁ t₂ t₃ t₄ s.world ≡ some v
      → Reach Starts s (record s { world = v; clock = t₄ })
  unfolding dispatch_send_message hold
  sent-Reach i m t₁ t₂ t₃ t₄ v e h₁ h₂ h₃ h₄ f =
      let t = sender i in
      let a = in_call first m in
      let w₁ = flush_expired_fault_if_needed t₁ s.world in
      let r₁ = waits_till Starts s t s.world s.clock t₁ (looks a) h₁ (given Starts s t m refl e) in
      let r₂ =
        waits_till Starts s t w₁ t₁ t₂ (locks first m) h₂ (flushes Starts s t a t₁ s.world r₁) in
      turn_ends Starts s t v t₄ e (
        admits Starts s t first m t₂ t₄ w₁ v (dispatch_send_message_after_fault i m t₃ t₄)
          (omega arith) r₂ (after-Turn i m t₂ t₃ t₄ w₁ v h₃ h₄) f)
