-- ===== src/Node/Kept.antt =====
-- What no step of the running threads changes: the topics, and which threads can be joined.
use swarm_ros_bridge.Common.{ℕ, not, List, map, modify, ◌≡◌, refl, ◌∙◌, map-modify}
use swarm_ros_bridge.Double.{Double, le, nought}
use swarm_ros_bridge.Topic.{Message}
use swarm_ros_bridge.World.{World, NodeFault, Event, SendControl, is_limited, no_control, control}
use swarm_ros_bridge.Fault.{start_node_fault}
use swarm_ros_bridge.Replay.{
  begin_recovery, end_recovery, take_buffers, send_serialized_message, replay_send_message,
  publish_received_message_after_fault,
}
use swarm_ros_bridge.SendQueue.{enqueue_send_message, push}
use swarm_ros_bridge.SendThread.Rounds.{send_round-joinable}
use swarm_ros_bridge.Aligned.{if-keeps}
use swarm_ros_bridge.Threads.Plan.{Release, sleeps_for, sends_to, publishes_on, perform}
use swarm_ros_bridge.Threads.{Tid, sender, receiver, worker, monitor, System, hold, hand_over}
use swarm_ros_bridge.Threads.Step.{
  Step, ticks, starts, is_given, takes_off, wakes, sees_end, sees_no_end, swaps_out, releases,
  finishes, holds, passes, hands_over, Reach, here, next,
}

module _ {W : Type 0} ⦃d : Double W⦄ where
  pub record IsKept (w v : World W) : Type 0 where
    pub send_topics : v.send_topics ≡ w.send_topics
    pub recv_topics : v.recv_topics ≡ w.recv_topics
    pub sending : map (λ c. c.joinable) v.controls ≡ map (λ c. c.joinable) w.controls
    pub monitoring : v.fault.joinable ≡ w.fault.joinable

  untouched :
      (w : World W) (f : NodeFault W) (es : List (Event W))
      → f.joinable ≡ w.fault.joinable
      → IsKept w (record w { fault = f; events = es })
  untouched w f es e = record {
    send_topics = refl;
    recv_topics = refl;
    sending = refl;
    monitoring = e;
  }

  kept : (w : World W) → IsKept w w
  kept w = untouched w w.fault w.events refl

  modify-IsKept :
      (w : World W) (i : ℕ) (f : SendControl → SendControl)
      → (f (control w i)).joinable ≡ (control w i).joinable
      → IsKept w (record w { controls = modify w.controls i f })
  modify-IsKept w i f h = record {
    send_topics = refl;
    recv_topics = refl;
    sending = map-modify (λ c. c.joinable) f w.controls i no_control h;
    monitoring = refl;
  }

  enqueue-IsKept : (i : ℕ) (m : Message) (w : World W) → IsKept w (enqueue_send_message i m w)
  unfolding enqueue_send_message push
  enqueue-IsKept i m w = modify-IsKept w i _ refl

  send-IsKept : (i : ℕ) (m : Message) (w : World W) → IsKept w (send_serialized_message i m w)
  unfolding send_serialized_message
  send-IsKept i m w = untouched w _ _ refl

  publish-IsKept :
      (i : ℕ) (m : Message) (w : World W) → IsKept w (publish_received_message_after_fault i m w)
  unfolding publish_received_message_after_fault
  publish-IsKept i m w =
      if-keeps (IsKept w) w.fault.publish_callback _ w (untouched w _ _ refl) (kept w)

  perform-IsKept : (r : Release W) (w : World W) → IsKept w (perform r w)
  unfolding perform replay_send_message
  perform-IsKept (sleeps_for t) w = untouched w _ _ refl
  perform-IsKept (sends_to i m) w =
      if-keeps (IsKept w) (is_limited w i) _ _ (enqueue-IsKept i m w) (send-IsKept i m w)
  perform-IsKept (publishes_on i m) w = publish-IsKept i m w

  hold-IsKept : (t : Tid) (m : Message) (w : World W) → IsKept w (hold t m w)
  unfolding hold
  hold-IsKept (sender i) m w = untouched w _ _ refl
  hold-IsKept (receiver i) m w = untouched w _ _ refl
  hold-IsKept (worker i) m w = untouched w _ _ refl
  hold-IsKept monitor m w = kept w

  hand_over-IsKept : (t : Tid) (m : Message) (w : World W) → IsKept w (hand_over t m w)
  unfolding hand_over
  hand_over-IsKept (sender i) m w =
      if-keeps (IsKept w) (is_limited w i) _ _ (enqueue-IsKept i m w) (send-IsKept i m w)
  hand_over-IsKept (receiver i) m w = publish-IsKept i m w
  hand_over-IsKept (worker i) m w = send-IsKept i m w
  hand_over-IsKept monitor m w = kept w

  start-IsKept : (now : ℕ) (duration : W) (w : World W) → IsKept w (start_node_fault now duration w)
  unfolding start_node_fault
  start-IsKept now duration w =
      if-keeps (IsKept w) (le duration nought) w _ (kept w)
        (if-keeps (IsKept w) (not w.fault.thread_running) w _ (kept w) (untouched w _ _ refl))

module _ {W : Type 0} ⦃d : Double W⦄ {Starts : World W → Type 0} where
  Step-IsKept : {s u : System W} → Step Starts s u → IsKept s.world u.world
  unfolding begin_recovery end_recovery take_buffers
  Step-IsKept {s} (ticks n) = kept s.world
  Step-IsKept {s} (starts duration q) = start-IsKept s.clock duration s.world
  Step-IsKept {s} (is_given t m c e) = kept s.world
  Step-IsKept {s} (takes_off i m b b' c l e r) =
      modify-IsKept s.world i (λ _. c)
        (send_round-joinable _ s.clock b b' (control s.world i) c m r)
  Step-IsKept {s} (wakes e r) = kept s.world
  Step-IsKept {s} (sees_end t a e h) = untouched s.world _ _ refl
  Step-IsKept {s} (sees_no_end t a e h) = kept s.world
  Step-IsKept {s} (swaps_out t a e) = untouched s.world _ _ refl
  Step-IsKept {s} (releases t a r rs e) = perform-IsKept r s.world
  Step-IsKept {s} (finishes t a e) = untouched s.world _ _ refl
  Step-IsKept {s} (holds t g m e r h) = hold-IsKept t m s.world
  Step-IsKept {s} (passes t g m e r h) = kept s.world
  Step-IsKept {s} (hands_over t m e) = hand_over-IsKept t m s.world

  pub Reach-IsKept : {s u : System W} → Reach Starts s u → IsKept s.world u.world
  Reach-IsKept {s} here = kept s.world
  Reach-IsKept (next r st) =
      let k = Reach-IsKept r in
      let l = Step-IsKept st in
      record {
        send_topics = l.send_topics ∙ k.send_topics;
        recv_topics = l.recv_topics ∙ k.recv_topics;
        sending = l.sending ∙ k.sending;
        monitoring = l.monitoring ∙ k.monitoring;
      }
