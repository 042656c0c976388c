-- ===== src/SendThread/Relay/Popped.antt =====
-- A wake-up that takes a message, and what becomes of the message with no fault.

use swarm_ros_bridge.Common.{
  ℕ, ◌≤◌, ◌<◌, true, some, List, [], ◌∷◌, arith, length, ◌≡◌, refl, ap, subst, Bool-cases, inl, inr,
  modify,
}
use swarm_ros_bridge.Double.{Double, le, of_size}
use swarm_ros_bridge.Topic.{Message}
use swarm_ros_bridge.World.{World, SendControl, size_range}
use swarm_ros_bridge.SendQueue.{sub_size}
use swarm_ros_bridge.SendQueue.Bounds.{total, IsCounted}
use swarm_ros_bridge.Replay.{send_serialized_message}
use swarm_ros_bridge.Dispatch.{hold_sent, consume_send_message_if_fault_active}
use swarm_ros_bridge.Dispatch.Resume.{admit-idle, flush-idle}
use swarm_ros_bridge.SendThread.{Bucket, takes, take_front, send_round, after_round, refill}
use swarm_ros_bridge.SendThread.Rounds.{popped-count}
use swarm_ros_bridge.SendThread.Relay.Queued.{IsIdle}

-- A round that took the message at the front.
pub record Popped (c c' : SendControl) (m : Message) : Type 0 where
  pub was : c.queue ≡ m ∷ c'.queue
  pub bytes : total c'.queue ≤ total c.queue
  pub counted : IsCounted c'
  pub thread_flag : c'.thread_flag ≡ c.thread_flag

module _ {W : Type 0} ⦃d : Double W⦄ where
  front-Popped :
      (rate : W) (now : ℕ) (b b' : Bucket W) (c c' : SendControl) (q : List Message) (m : Message)
      → c.queue ≡ q
      → IsCounted c
      → total c.queue < size_range
      → take_front rate now b c q ≡ takes m b' c'
      → Popped c c' m
  unfolding take_front
  front-Popped rate now b b' c c' [] m e v h t = cc
  front-Popped rate now b b' c c' (x ∷ q) m e v h t =
      elim (Bool-cases (le (of_size x.data_len) (refill rate now x b))) [
        | inl p ↦
            subst (Popped c c') (same_message p) (subst (λ k. Popped c k x) (same_control p) popped)
        | inr p ↦ absurd (ground (arith, t, p))
      ]
    where
      left : SendControl
      left = record c { queue = q; queue_bytes = sub_size c.queue_bytes x.data_len }

      same_message : le (of_size x.data_len) (refill rate now x b) ≡ true → x ≡ m
      same_message p = ground (arith, t, p)

      same_control : le (of_size x.data_len) (refill rate now x b) ≡ true → left ≡ c'
      same_control p = ground (arith, t, p)

      popped : Popped c left x
      popped = record {
        was = e;
        bytes = omega (arith, ap total e);
        counted = record {
          counted = popped-count c x q v e h;
          short = omega (arith, v.short, ap length e);
        };
        thread_flag = refl;
      }

  pub round-Popped :
      (rate : W) (now : ℕ) (b b' : Bucket W) (c c' : SendControl) (m : Message)
      → IsCounted c
      → total c.queue < size_range
      → send_round rate now b c ≡ takes m b' c'
      → Popped c c' m
  unfolding send_round
  round-Popped rate now b b' c c' m v h t =
      front-Popped rate now b b' c c' c.queue m refl v h (ground (arith, t))

  pub after_round-idle :
      (i t₁ t₂ : ℕ) (w : World W) (m : Message) (b' : Bucket W) (c : SendControl)
      → IsIdle w
      → after_round i t₁ t₂ w (takes m b' c)
        ≡ some (send_serialized_message i m (record w { controls = modify w.controls i (λ _. c) }))
  unfolding after_round consume_send_message_if_fault_active
  after_round-idle i t₁ t₂ w m b' c a =
      let v = record w { controls = modify w.controls i (λ _. c) } in
      rw (flush-idle t₁ v a.inactive, admit-idle (hold_sent i m) t₂ v a.inactive a.steady)
