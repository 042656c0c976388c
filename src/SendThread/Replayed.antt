-- ===== src/SendThread/Replayed.antt =====
-- A recovery, seen from the queue of a limited topic: what was held back goes through it.
use mathlib.Core.Bool.{false≢true}
use swarm_ros_bridge.Common.{
  ℕ, suc, ◌+◌, ◌≤◌, ◌<◌, Bool, true, false, List, [], ◌∷◌, ◌++◌, append-nil, append_assoc, length,
  length-modify, get_or, get_or-modify_ne, ◌≡◌, refl, sym, ap, ◌∙◌, subst, arith, ◌==◌, ==_iff,
  if◌then◌else◌, Bool-cases, inl, inr,
}
use swarm_ros_bridge.Double.{Double}
use swarm_ros_bridge.Topic.{Message}
use swarm_ros_bridge.World.{
  World, no_control, size_range, is_limited, log, slept, zmq_sent, published,
}
use swarm_ros_bridge.SendQueue.{enqueue_send_message}
use swarm_ros_bridge.Replay.{
  send_serialized_message, publish_received_message_after_fault, replay_send_message, pause, replay,
  replay_sends, replay_recvs, take_buffers, flush_fault_buffers, get_fault_replay_interval,
  get_recv_fault_replay_interval,
}
use swarm_ros_bridge.Replay.Log.{sent, sent_on-append, if-append}
use swarm_ros_bridge.Replay.Recovery.{pick, pick-get_or}
use swarm_ros_bridge.SendThread.Relay.Queued.{most, Lined, elsewhere-Lined, queued-Lined}
use swarm_ros_bridge.SendThread.InOrder.{AllShort, AllShort-left, AllShort-right}

-- The messages of a buffer, if it is the topic's.
abbrev pub own : Bool → List Message → List Message
own b ms = if b then ms else []

own-head :
    (longest : ℕ) (b : Bool) (m : Message) (ms : List Message)
    → AllShort longest (own b (m ∷ ms))
    → AllShort longest (own b (m ∷ []))
own-head longest true m ms h = (h.0, tt)
own-head longest false m ms h = tt

own-tail :
    (longest : ℕ) (b : Bool) (m : Message) (ms : List Message)
    → AllShort longest (own b (m ∷ ms))
    → AllShort longest (own b ms)
own-tail longest true m ms h = h.1
own-tail longest false m ms h = tt

own-nil : (b : Bool) → own b [] ≡ []
own-nil true = refl
own-nil false = refl

module _ {W : Type 0} ⦃d : Double W⦄ (i longest : ℕ) (w₀ : World W) where
  -- What waits in the queue of topic `i`; nothing has been written.
  abbrev pub Waiting : List Message → World W → Type 0
  Waiting ms w = Lined i longest w₀ ms [] w

  pause-Waiting :
      (is_first : Bool) (t : W) (ms : List Message) (w : World W)
      → Waiting ms w
      → Waiting ms (pause is_first t w)
  unfolding pause
  pause-Waiting true t ms w r = r
  pause-Waiting false t ms w r =
      elsewhere-Lined i longest w₀ w (log (slept t) w) ms [] r refl refl refl
        (sent_on-append i w.events (slept t ∷ []) ∙ append-nil (sent i w))

  if-Waiting :
      (f : Bool) (ms : List Message) (v w : World W)
      → Waiting ms v
      → Waiting ms w
      → Waiting ms (if f then v else w)
  if-Waiting true ms v w r s = r
  if-Waiting false ms v w r s = s

  publish-Waiting :
      (k : ℕ) (m : Message) (ms : List Message) (w : World W)
      → Waiting ms w
      → Waiting ms (publish_received_message_after_fault k m w)
  unfolding publish_received_message_after_fault
  publish-Waiting k m ms w r =
      if-Waiting w.fault.publish_callback ms _ w
        (elsewhere-Lined i longest w₀ w _ ms [] r refl refl refl
          (sent_on-append i w.events (published k m ∷ []) ∙ append-nil (sent i w)))
        r

  -- One buffer's loop, given what each of its messages does.
  module _ (b : Bool) (release : Message → World W → World W)
      (released : (m : Message) (ms : List Message) (w : World W)
        → AllShort longest (own b (m ∷ []))
        → Waiting ms w
        → Waiting (ms ++ own b (m ∷ [])) (release m w)) where
    replay-Waiting :
        (t : W) (is_first : Bool) (held ms : List Message) (w : World W)
        → AllShort longest (own b held)
        → Waiting ms w
        → Waiting (ms ++ own b held) (replay release t is_first held w)
    unfolding replay
    replay-Waiting t is_first [] ms w h r =
        subst (λ l. Waiting l w)
          (sym (ap (λ (l : List Message). ms ++ l) (own-nil b) ∙ append-nil ms)) r
    replay-Waiting t is_first (m ∷ held) ms w h r =
        subst (λ l. Waiting l (replay release t is_first (m ∷ held) w)) (if-append b ms m held)
          (replay-Waiting t false held (ms ++ own b (m ∷ [])) (release m (pause is_first t w))
            (own-tail longest b m held h)
            (released m ms (pause is_first t w) (own-head longest b m held h)
              (pause-Waiting is_first t ms w r)))

module _ {W : Type 0} ⦃d : Double W⦄ (i longest : ℕ) (w₀ : World W)
    (small : most w₀ i longest + longest < size_range) (tracked : i < length w₀.controls)
    (limited : is_limited w₀ i ≡ true) where
  own-Waiting :
      (k : ℕ) (m : Message) (ms : List Message) (w : World W)
      → (k == i) ≡ true
      → m.data_len ≤ longest
      → Waiting i longest w₀ ms w
      → Waiting i longest w₀ (ms ++ m ∷ []) (replay_send_message k m w)
  unfolding replay_send_message
  own-Waiting k m ms w e short r =
      let same = (==_iff k i).0 e in
      let one : is_limited w k ≡ true = rw (r.topics, same) limited in
      rw one (
        subst (λ j. Waiting i longest w₀ (ms ++ m ∷ []) (enqueue_send_message j m w)) (sym same)
          (queued-Lined i longest w₀ small tracked m ms [] w short r))

  other-Waiting :
      (k : ℕ) (m : Message) (ms : List Message) (w : World W)
      → (k == i) ≡ false
      → Waiting i longest w₀ ms w
      → Waiting i longest w₀ ms (replay_send_message k m w)
  unfolding replay_send_message send_serialized_message enqueue_send_message
  other-Waiting k m ms w n r =
      if-Waiting i longest w₀ (is_limited w k) ms (enqueue_send_message k m w)
        (send_serialized_message k m w)
        (elsewhere-Lined i longest w₀ w (enqueue_send_message k m w) ms [] r refl
          (length-modify w.controls k _)
          (get_or-modify_ne w.controls k i _ no_control
            (λ q. false≢true (sym n ∙ (==_iff k i).1 q)))
          refl)
        (elsewhere-Lined i longest w₀ w (send_serialized_message k m w) ms [] r refl refl refl
          (sent_on-append i w.events (zmq_sent k m ∷ []) ∙ rw (n, append-nil (sent i w))))

  send-Waiting :
      (k : ℕ) (m : Message) (ms : List Message) (w : World W)
      → AllShort longest (own (k == i) (m ∷ []))
      → Waiting i longest w₀ ms w
      → Waiting i longest w₀ (ms ++ own (k == i) (m ∷ [])) (replay_send_message k m w)
  send-Waiting k m ms w h r = elim (Bool-cases (k == i)) [
    | inl e ↦
        rw e
          (own-Waiting k m ms w e (subst (λ (b : Bool). AllShort longest (own b (m ∷ []))) e h).0 r)
    | inr n ↦ rw (n, append-nil ms) (other-Waiting k m ms w n r)
  ]

  replay_sends-Waiting :
      (k : ℕ) (bs : List (List Message)) (ms : List Message) (w : World W)
      → AllShort longest (pick i k bs)
      → Waiting i longest w₀ ms w
      → Waiting i longest w₀ (ms ++ pick i k bs) (replay_sends k bs w)
  unfolding replay_sends
  replay_sends-Waiting k [] ms w h r = rw (append-nil ms) r
  replay_sends-Waiting k (b ∷ bs) ms w h r =
      subst (λ l. Waiting i longest w₀ l (replay_sends k (b ∷ bs) w))
        (append_assoc ms (own (k == i) b) (pick i (suc k) bs))
        (replay_sends-Waiting (suc k) bs (ms ++ own (k == i) b) _
          (AllShort-right longest (own (k == i) b) (pick i (suc k) bs) h)
          (replay-Waiting i longest w₀ (k == i) (replay_send_message k) (send-Waiting k)
            (get_fault_replay_interval k true w) true b ms w
            (AllShort-left longest (own (k == i) b) (pick i (suc k) bs) h) r))

  replay_recvs-Waiting :
      (k : ℕ) (duration : W) (bs : List (List Message)) (ms : List Message) (w : World W)
      → Waiting i longest w₀ ms w
      → Waiting i longest w₀ ms (replay_recvs k duration bs w)
  unfolding replay_recvs
  replay_recvs-Waiting k t [] ms w r = r
  replay_recvs-Waiting k t (b ∷ bs) ms w r = replay_recvs-Waiting (suc k) t bs ms _ (
      subst
        (λ l. Waiting i longest w₀ l (
          replay (publish_received_message_after_fault k)
            (get_recv_fault_replay_interval (length b) t) true b w))
        (append-nil ms)
        (replay-Waiting i longest w₀ false (publish_received_message_after_fault k)
          (λ m l v h q.
            subst (λ l'. Waiting i longest w₀ l' (publish_received_message_after_fault k m v))
              (sym (append-nil l)) (publish-Waiting i longest w₀ k m l v q))
          (get_recv_fault_replay_interval (length b) t) true b ms w tt r))

  -- A flush puts what the topic's buffer held behind what waits.
  pub flush_fault_buffers-Waiting :
      (ms : List Message) (w : World W)
      → AllShort longest (get_or w.fault.send_buffers i [])
      → Waiting i longest w₀ ms w
      → Waiting i longest w₀ (ms ++ get_or w.fault.send_buffers i []) (flush_fault_buffers w)
  unfolding flush_fault_buffers take_buffers
  flush_fault_buffers-Waiting ms w h r =
      let held = pick-get_or i 0 i w.fault.send_buffers (omega arith) in
      replay_recvs-Waiting 0 w.fault.duration_sec w.fault.recv_buffers _ _ (
        subst
          (λ l.
            Waiting i longest w₀ (ms ++ l) (replay_sends 0 w.fault.send_buffers (take_buffers w)))
          held
          (replay_sends-Waiting 0 w.fault.send_buffers ms (take_buffers w)
            (subst (AllShort longest) (sym held) h)
            (elsewhere-Lined i longest w₀ w (take_buffers w) ms [] r refl refl refl refl)))
