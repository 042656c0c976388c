-- ===== src/Threads/Plan/Sends.antt =====
-- The messages that a replay brings to a send topic: what its buffer held, in order.
use swarm_ros_bridge.Common.{
  ℕ, zero, suc, ◌+◌, ◌<◌, Bool, true, false, List, [], ◌∷◌, ◌++◌, append-nil, ◌≡◌, refl, ap, ◌∙◌,
  arith, get_or, ◌==◌, ==_iff, if◌then◌else◌,
}
use swarm_ros_bridge.Double.{Double}
use swarm_ros_bridge.Topic.{Message}
use swarm_ros_bridge.Replay.{get_fault_replay_interval}
use swarm_ros_bridge.World.{World}
use swarm_ros_bridge.Threads.Plan.{
  Release, sleeps_for, sends_to, publishes_on, plan, plan_topic, plan_sends, plan_recvs,
}

module _ {W : Type 0} where
  -- The messages that releases bring to send topic `i`.
  abbrev pub sends_of : ℕ → List (Release W) → List Message
  sends_of i [] = []
  sends_of i (sleeps_for t ∷ rs) = sends_of i rs
  sends_of i (sends_to j m ∷ rs) = if j == i then m ∷ sends_of i rs else sends_of i rs
  sends_of i (publishes_on j m ∷ rs) = sends_of i rs

  sends_of-append :
      (i : ℕ) (rs qs : List (Release W)) → sends_of i (rs ++ qs) ≡ sends_of i rs ++ sends_of i qs
  sends_of-append i [] qs = refl
  sends_of-append i (sleeps_for t ∷ rs) qs = sends_of-append i rs qs
  sends_of-append i (sends_to j m ∷ rs) qs = ground (arith, sends_of-append i rs qs)
  sends_of-append i (publishes_on j m ∷ rs) qs = sends_of-append i rs qs

  pub sends_of-tail :
      (i : ℕ) (r : Release W) (rs : List (Release W))
      → sends_of i (r ∷ rs) ≡ []
      → sends_of i rs ≡ []
  sends_of-tail i (sleeps_for t) rs e = e
  sends_of-tail i (sends_to j m) rs e = ground arith
  sends_of-tail i (publishes_on j m) rs e = e

module _ {W : Type 0} ⦃d : Double W⦄ (i : ℕ) where
  sends_of-plan_topic :
      (j : ℕ) (t : W) (b : Bool) (ms : List Message)
      → sends_of i (plan_topic (sends_to j) t b ms) ≡ (if j == i then ms else [])
  unfolding plan_topic
  sends_of-plan_topic j t b [] = ground arith
  sends_of-plan_topic j t true (m ∷ ms) = ground (arith, sends_of-plan_topic j t false ms)
  sends_of-plan_topic j t false (m ∷ ms) = ground (arith, sends_of-plan_topic j t false ms)

  no_sends-plan_topic :
      (j : ℕ) (t : W) (b : Bool) (ms : List Message)
      → sends_of i (plan_topic (publishes_on j) t b ms) ≡ []
  unfolding plan_topic
  no_sends-plan_topic j t b [] = refl
  no_sends-plan_topic j t true (m ∷ ms) = no_sends-plan_topic j t false ms
  no_sends-plan_topic j t false (m ∷ ms) = no_sends-plan_topic j t false ms

  no_sends-plan_recvs :
      (duration : W) (k : ℕ) (bs : List (List Message)) → sends_of i (plan_recvs duration k bs) ≡ []
  unfolding plan_recvs
  no_sends-plan_recvs duration k [] = refl
  no_sends-plan_recvs duration k (b ∷ bs) =
      sends_of-append i (plan_topic (publishes_on k) _ true b) (plan_recvs duration (suc k) bs)
      ∙ ap (λ (l : List Message). l ++ sends_of i (plan_recvs duration (suc k) bs))
          (no_sends-plan_topic k _ true b)
      ∙ no_sends-plan_recvs duration (suc k) bs

  plan_sends-past :
      (w : World W) (k : ℕ) (bs : List (List Message)) → i < k → sends_of i (plan_sends w k bs) ≡ []
  unfolding plan_sends
  plan_sends-past w k [] h = refl
  plan_sends-past w k (b ∷ bs) h = ground (
    arith,
    sends_of-append i (plan_topic (sends_to k) (get_fault_replay_interval k true w) true b)
        (plan_sends w (suc k) bs),
    sends_of-plan_topic k (get_fault_replay_interval k true w) true b,
    plan_sends-past w (suc k) bs,
  )

  plan_sends-at :
      (w : World W) (k n : ℕ) (bs : List (List Message))
      → i ≡ k + n
      → sends_of i (plan_sends w k bs) ≡ get_or bs n []
  unfolding plan_sends
  plan_sends-at w k n [] e = refl
  plan_sends-at w k zero (b ∷ bs) e =
      let t = get_fault_replay_interval k true w in
      sends_of-append i (plan_topic (sends_to k) t true b) (plan_sends w (suc k) bs)
      ∙ ap (λ (l : List Message). sends_of i (plan_topic (sends_to k) t true b) ++ l)
          (plan_sends-past w (suc k) bs (omega arith))
      ∙ append-nil _
      ∙ sends_of-plan_topic k t true b
      ∙ ap (λ (c : Bool). if c then b else []) ((==_iff k i).1 (omega arith))
  plan_sends-at w k (suc n) (b ∷ bs) e = ground (
    arith,
    sends_of-append i (plan_topic (sends_to k) (get_fault_replay_interval k true w) true b)
        (plan_sends w (suc k) bs),
    sends_of-plan_topic k (get_fault_replay_interval k true w) true b,
    plan_sends-at w (suc k) n bs,
  )

  pub sends_of-plan : (w : World W) → sends_of i (plan w) ≡ get_or w.fault.send_buffers i []
  unfolding plan
  sends_of-plan w =
      sends_of-append i (plan_sends w 0 w.fault.send_buffers) _
      ∙ ap (λ (l : List Message). sends_of i (plan_sends w 0 w.fault.send_buffers) ++ l)
          (no_sends-plan_recvs w.fault.duration_sec 0 w.fault.recv_buffers)
      ∙ append-nil _
      ∙ plan_sends-at w 0 i w.fault.send_buffers (omega arith)
