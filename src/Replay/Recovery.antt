-- ===== src/Replay/Recovery.antt =====
-- The whole of a recovery: what each topic shows after it, and the state that it leaves.
use swarm_ros_bridge.Common.{
  ℕ, zero, suc, ◌+◌, ◌<◌, true, false, List, [], ◌∷◌, ◌++◌, append-nil, append_assoc, length,
  get_or, arith, ◌≡◌, refl, sym, ap, ◌∙◌, ◌==◌, ==_iff, Bool-cases, inl, inr, if◌then◌else◌,
}
use swarm_ros_bridge.Double.{Double}
use swarm_ros_bridge.Topic.{Message}
use swarm_ros_bridge.World.{World, log, slept, is_limited}
use swarm_ros_bridge.Replay.Log.{
  sent, shown, SameSetup, SameSetup-refl, slept-SameSetup, publish-SameSetup, replay_send-SameSetup,
  replay_send-sent, publish-shown, replay-obs, sent_on-append, published_on-append,
}
use swarm_ros_bridge.SendQueue.{enqueue_send_message}
use swarm_ros_bridge.Replay.{
  send_serialized_message, publish_received_message_after_fault, replay_send_message, replay_sends,
  replay_recvs, take_buffers, flush_fault_buffers, get_fault_replay_interval,
  get_recv_fault_replay_interval,
}

-- Entry `j` of a list that begins with entry `k`.
abbrev pub pick : ℕ → ℕ → List (List Message) → List Message
pick j k [] = []
pick j k (b ∷ bs) = (if k == j then b else []) ++ pick j (suc k) bs

pick-past : (j k : ℕ) (bs : List (List Message)) → j < k → pick j k bs ≡ []
pick-past j k [] h = refl
pick-past j k (b ∷ bs) h = ground (arith, pick-past j (suc k) bs)

pub pick-get_or : (j k i : ℕ) (bs : List (List Message)) → j ≡ k + i → pick j k bs ≡ get_or bs i []
pick-get_or j k i [] e = refl
pick-get_or j k zero (b ∷ bs) e =
    rw ((==_iff k j).1 (omega arith), pick-past j (suc k) bs (omega arith)) (append-nil b)
pick-get_or j k (suc i) (b ∷ bs) e = ground (arith, pick-get_or j (suc k) i bs)

if-split {ℓ} : {A : Type ℓ} (xs ys zs ws : List A) → ws ≡ xs ++ ys → ws ++ zs ≡ xs ++ (ys ++ zs)
if-split xs ys zs ws e = rw e (append_assoc xs ys zs)

module _ {W : Type 0} ⦃d : Double W⦄ (w₀ : World W) (j : ℕ) where
  -- Replays of sends, seen on PUB socket `j` of a topic with no bitrate limit.
  module _ (free : is_limited w₀ j ≡ false) where
    replay_sends-sent :
        (k : ℕ) (bs : List (List Message)) (w : World W)
        → SameSetup w₀ w
        → (sent j (replay_sends k bs w) ≡ sent j w ++ pick j k bs)
          × SameSetup w₀ (replay_sends k bs w)
    unfolding replay_sends
    replay_sends-sent k [] w s = (sym (append-nil _), s)
    replay_sends-sent k (b ∷ bs) w s =
        let one =
          replay-obs (sent j) (SameSetup w₀) (k == j) (replay_send_message k)
            (λ m v c.
              (replay_send-sent j k m v (rw c.send_topics free), replay_send-SameSetup w₀ v k m c))
            (λ t v c. (
              sent_on-append j v.events (slept t ∷ []) ∙ append-nil (sent j v),
              slept-SameSetup w₀ v t c,
            ))
            (get_fault_replay_interval k true w) true b w s in
        let rest = replay_sends-sent (suc k) bs _ one.1 in
        (
          rest.0 ∙ if-split (sent j w) (if k == j then b else []) (pick j (suc k) bs) _ one.0,
          rest.1,
        )

  replay_send-shown :
      (i : ℕ) (m : Message) (w : World W) → shown j (replay_send_message i m w) ≡ shown j w
  unfolding replay_send_message send_serialized_message enqueue_send_message
  replay_send-shown i m w = elim (Bool-cases (is_limited w i)) [
    | inl e ↦ rw e
    | inr e ↦ rw e (published_on-append j w.events _ ∙ append-nil (shown j w))
  ]

  publish-sent :
      (i : ℕ) (m : Message) (w : World W)
      → sent j (publish_received_message_after_fault i m w) ≡ sent j w
  unfolding publish_received_message_after_fault
  publish-sent i m w = elim (Bool-cases w.fault.publish_callback) [
    | inl e ↦ rw e (sent_on-append j w.events _ ∙ append-nil (sent j w))
    | inr e ↦ rw e
  ]

  slept-sent :
      (t : W) (w : World W)
      → SameSetup w₀ w
      → (sent j (log (slept t) w) ≡ sent j w) × SameSetup w₀ (log (slept t) w)
  slept-sent t w s =
      (sent_on-append j w.events (slept t ∷ []) ∙ append-nil (sent j w), slept-SameSetup w₀ w t s)

  slept-shown :
      (t : W) (w : World W)
      → SameSetup w₀ w
      → (shown j (log (slept t) w) ≡ shown j w) × SameSetup w₀ (log (slept t) w)
  slept-shown t w s = (
    published_on-append j w.events (slept t ∷ []) ∙ append-nil (shown j w),
    slept-SameSetup w₀ w t s,
  )

  replay_sends-shown :
      (k : ℕ) (bs : List (List Message)) (w : World W)
      → SameSetup w₀ w
      → (shown j (replay_sends k bs w) ≡ shown j w) × SameSetup w₀ (replay_sends k bs w)
  unfolding replay_sends
  replay_sends-shown k [] w s = (refl, s)
  replay_sends-shown k (b ∷ bs) w s =
      let one =
        replay-obs (shown j) (SameSetup w₀) false (replay_send_message k)
          (λ m v c.
            (replay_send-shown k m v ∙ sym (append-nil _), replay_send-SameSetup w₀ v k m c))
          slept-shown (get_fault_replay_interval k true w) true b w s in
      let rest = replay_sends-shown (suc k) bs _ one.1 in
      (rest.0 ∙ one.0 ∙ append-nil (shown j w), rest.1)

  replay_recvs-sent :
      (k : ℕ) (duration : W) (bs : List (List Message)) (w : World W)
      → SameSetup w₀ w
      → (sent j (replay_recvs k duration bs w) ≡ sent j w)
        × SameSetup w₀ (replay_recvs k duration bs w)
  unfolding replay_recvs
  replay_recvs-sent k t [] w s = (refl, s)
  replay_recvs-sent k t (b ∷ bs) w s =
      let one =
        replay-obs (sent j) (SameSetup w₀) false (publish_received_message_after_fault k)
          (λ m v c. (publish-sent k m v ∙ sym (append-nil _), publish-SameSetup w₀ v k m c))
          slept-sent (get_recv_fault_replay_interval (length b) t) true b w s in
      let rest = replay_recvs-sent (suc k) t bs _ one.1 in
      (rest.0 ∙ one.0 ∙ append-nil (sent j w), rest.1)

  -- Replays of received messages, seen on ROS topic `j`.
  module _ (callback : w₀.fault.publish_callback ≡ true) where
    replay_recvs-shown :
        (k : ℕ) (duration : W) (bs : List (List Message)) (w : World W)
        → SameSetup w₀ w
        → (shown j (replay_recvs k duration bs w) ≡ shown j w ++ pick j k bs)
          × SameSetup w₀ (replay_recvs k duration bs w)
    unfolding replay_recvs
    replay_recvs-shown k t [] w s = (sym (append-nil _), s)
    replay_recvs-shown k t (b ∷ bs) w s =
        let one =
          replay-obs (shown j) (SameSetup w₀) (k == j) (publish_received_message_after_fault k)
            (λ m v c. (publish-shown j k m v (rw c.fault callback), publish-SameSetup w₀ v k m c))
            slept-shown (get_recv_fault_replay_interval (length b) t) true b w s in
        let rest = replay_recvs-shown (suc k) t bs _ one.1 in
        (
          rest.0 ∙ if-split (shown j w) (if k == j then b else []) (pick j (suc k) bs) _ one.0,
          rest.1,
        )

module _ {W : Type 0} ⦃d : Double W⦄ (w : World W) where
  -- The state after the swap and the replay: the fault as it was, with empty buffers.
  pub flush_fault_buffers-SameSetup : SameSetup (take_buffers w) (flush_fault_buffers w)
  unfolding flush_fault_buffers
  flush_fault_buffers-SameSetup =
      (replay_recvs-sent (take_buffers w) 0 0 w.fault.duration_sec w.fault.recv_buffers _
        (replay_sends-shown (take_buffers w) 0 0 w.fault.send_buffers (take_buffers w)
          (SameSetup-refl (take_buffers w))).1).1

  -- A flush hands PUB socket `j` of an unlimited topic what its buffer held, in order.
  pub flush_fault_buffers-sent :
      (j : ℕ)
      → is_limited w j ≡ false
      → sent j (flush_fault_buffers w) ≡ sent j w ++ get_or w.fault.send_buffers j []
  unfolding flush_fault_buffers
  flush_fault_buffers-sent j free =
      let v = take_buffers w in
      let s = replay_sends-sent v j free 0 w.fault.send_buffers v (SameSetup-refl v) in
      let r = replay_recvs-sent v j 0 w.fault.duration_sec w.fault.recv_buffers _ s.1 in
      r.0 ∙ s.0 ∙ ap (◌++◌ (sent j w)) (pick-get_or j 0 j w.fault.send_buffers (omega arith))

  -- And it gives ROS topic `j` what its buffer held, in order.
  pub flush_fault_buffers-shown :
      (j : ℕ)
      → w.fault.publish_callback ≡ true
      → shown j (flush_fault_buffers w) ≡ shown j w ++ get_or w.fault.recv_buffers j []
  unfolding flush_fault_buffers
  flush_fault_buffers-shown j callback =
      let v = take_buffers w in
      let s = replay_sends-shown v j 0 w.fault.send_buffers v (SameSetup-refl v) in
      let r = replay_recvs-shown v j callback 0 w.fault.duration_sec w.fault.recv_buffers _ s.1 in
      r.0
      ∙ ap (λ (l : List Message). l ++ pick j 0 w.fault.recv_buffers) s.0
      ∙ ap (◌++◌ (shown j w)) (pick-get_or j 0 j w.fault.recv_buffers (omega arith))
