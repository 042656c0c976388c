-- ===== src/Threads/Plan.antt =====
-- What a replay does, one release after the other: the program of the loops in
-- `flush_fault_buffers` of src/sim_comm.cpp over the buffers that it has swapped out.
pub mod Sends
pub mod Pauses
use swarm_ros_bridge.Common.{
  ℕ, suc, Bool, true, false, List, [], ◌∷◌, ◌++◌, length, map, arith, ◌≡◌, refl, sym, ap, ◌∙◌,
  if◌then◌else◌,
}
use swarm_ros_bridge.Double.{Double}
use swarm_ros_bridge.Topic.{Message}
use swarm_ros_bridge.World.{World, log, slept}
use swarm_ros_bridge.Replay.{
  get_fault_replay_interval, get_recv_fault_replay_interval, replay_send_message,
  send_serialized_message, publish_received_message_after_fault, pause, replay, replay_sends,
  replay_recvs, take_buffers, flush_fault_buffers,
}
use swarm_ros_bridge.SendQueue.{enqueue_send_message}

pub data Release (W : Type 0) : Type 0 where
  sleeps_for : W → Release W
  sends_to : ℕ → Message → Release W
  publishes_on : ℕ → Message → Release W

module _ {W : Type 0} ⦃d : Double W⦄ where
  unfoldable pub perform : Release W → World W → World W
  perform (sleeps_for t) w = log (slept t) w
  perform (sends_to i m) w = replay_send_message i m w
  perform (publishes_on i m) w = publish_received_message_after_fault i m w

  unfoldable pub perform_all : List (Release W) → World W → World W
  unfolding perform
  perform_all [] w = w
  perform_all (r ∷ rs) w = perform_all rs (perform r w)

  -- One topic: a pause before each message but the first.
  pub plan_topic : (Message → Release W) → W → Bool → List Message → List (Release W)
  plan_topic release interval is_first [] = []
  plan_topic release interval is_first (m ∷ ms) =
      (if is_first then [] else sleeps_for interval ∷ [])
      ++ (release m ∷ plan_topic release interval false ms)

  pub plan_sends : World W → ℕ → List (List Message) → List (Release W)
  unfolding plan_topic
  plan_sends w i [] = []
  plan_sends w i (ms ∷ rest) =
      plan_topic (sends_to i) (get_fault_replay_interval i true w) true ms
      ++ plan_sends w (suc i) rest

  pub plan_recvs : W → ℕ → List (List Message) → List (Release W)
  unfolding plan_topic
  plan_recvs duration i [] = []
  plan_recvs duration i (ms ∷ rest) =
      plan_topic (publishes_on i) (get_recv_fault_replay_interval (length ms) duration) true ms
      ++ plan_recvs duration (suc i) rest

  -- Fixed when the buffers are swapped out: send topics first, then receive topics.
  unfoldable pub plan : World W → List (Release W)
  unfolding plan_sends plan_recvs
  plan w =
      plan_sends w 0 w.fault.send_buffers ++ plan_recvs w.fault.duration_sec 0 w.fault.recv_buffers

  plan_sends-nil :
      (w : World W) (i : ℕ) (bs : List (List Message)) → plan_sends w i (map (λ _. []) bs) ≡ []
  unfolding plan_sends plan_topic
  plan_sends-nil w i [] = refl
  plan_sends-nil w i (b ∷ bs) = plan_sends-nil w (suc i) bs

  plan_recvs-nil :
      (t : W) (i : ℕ) (bs : List (List Message)) → plan_recvs t i (map (λ _. []) bs) ≡ []
  unfolding plan_recvs plan_topic
  plan_recvs-nil t i [] = refl
  plan_recvs-nil t i (b ∷ bs) = plan_recvs-nil t (suc i) bs

  -- Buffers that a start has cleared leave nothing to replay.
  pub plan-nil :
      (w : World W) (bs cs : List (List Message))
      → w.fault.send_buffers ≡ map (λ _. []) bs
      → w.fault.recv_buffers ≡ map (λ _. []) cs
      → plan w ≡ []
  unfolding plan
  plan-nil w bs cs e f = rw (
    ap (plan_sends w 0) e ∙ plan_sends-nil w 0 bs,
    ap (plan_recvs w.fault.duration_sec 0) f ∙ plan_recvs-nil w.fault.duration_sec 0 cs,
  )

  perform_all-append :
      (rs qs : List (Release W)) (w : World W)
      → perform_all (rs ++ qs) w ≡ perform_all qs (perform_all rs w)
  unfolding perform_all
  perform_all-append [] qs w = refl
  perform_all-append (r ∷ rs) qs w = perform_all-append rs qs (perform r w)

  plan_topic-replay :
      (release : Message → Release W) (t : W) (is_first : Bool) (ms : List Message) (w : World W)
      → perform_all (plan_topic release t is_first ms) w
        ≡ replay (λ m. perform (release m)) t is_first ms w
  unfolding plan_topic perform_all replay pause perform
  plan_topic-replay release t is_first [] w = refl
  plan_topic-replay release t true (m ∷ ms) w = plan_topic-replay release t false ms _
  plan_topic-replay release t false (m ∷ ms) w = plan_topic-replay release t false ms _

  -- Releases leave the topics, and the state of the fault, alone.
  pub perform-setup :
      (r : Release W) (w : World W)
      → ((perform r w).send_topics ≡ w.send_topics) × ((perform r w).fault ≡ w.fault)
  unfolding perform replay_send_message send_serialized_message enqueue_send_message
      publish_received_message_after_fault
  perform-setup (sleeps_for t) w = (refl, refl)
  perform-setup (sends_to i m) w = ground arith
  perform-setup (publishes_on i m) w = ground arith

  perform_all-topics :
      (rs : List (Release W)) (w : World W) → (perform_all rs w).send_topics ≡ w.send_topics
  unfolding perform_all
  perform_all-topics [] w = refl
  perform_all-topics (r ∷ rs) w = perform_all-topics rs (perform r w) ∙ (perform-setup r w).0

  interval-topics :
      (i : ℕ) (v w : World W)
      → v.send_topics ≡ w.send_topics
      → get_fault_replay_interval i true v ≡ get_fault_replay_interval i true w
  unfolding get_fault_replay_interval
  interval-topics i v w e = rw e

  plan_sends-replay :
      (w : World W) (i : ℕ) (bs : List (List Message)) (v : World W)
      → v.send_topics ≡ w.send_topics
      → perform_all (plan_sends w i bs) v ≡ replay_sends i bs v
  unfolding plan_sends replay_sends perform_all
  plan_sends-replay w i [] v e = refl
  plan_sends-replay w i (ms ∷ rest) v e =
      let t = get_fault_replay_interval i true w in
      let one = plan_topic (sends_to i) t true ms in
      perform_all-append one (plan_sends w (suc i) rest) v
      ∙ plan_sends-replay w (suc i) rest (perform_all one v) (perform_all-topics one v ∙ e)
      ∙ ap (replay_sends (suc i) rest) (
          plan_topic-replay (sends_to i) t true ms v
          ∙ ap (λ (t : W). replay (replay_send_message i) t true ms v)
              (sym (interval-topics i v w e)))

  plan_recvs-replay :
      (duration : W) (i : ℕ) (bs : List (List Message)) (v : World W)
      → perform_all (plan_recvs duration i bs) v ≡ replay_recvs i duration bs v
  unfolding plan_recvs replay_recvs perform_all
  plan_recvs-replay duration i [] v = refl
  plan_recvs-replay duration i (ms ∷ rest) v =
      let t = get_recv_fault_replay_interval (length ms) duration in
      let one = plan_topic (publishes_on i) t true ms in
      perform_all-append one (plan_recvs duration (suc i) rest) v
      ∙ plan_recvs-replay duration (suc i) rest (perform_all one v)
      ∙ ap (replay_recvs (suc i) duration rest) (plan_topic-replay (publishes_on i) t true ms v)

  -- The releases planned at the swap, made one after the other from the swapped state, are the whole
  -- flush: its sends, publications and pauses, in their order.
  pub plan-flush_fault_buffers :
      (w : World W) → perform_all (plan w) (take_buffers w) ≡ flush_fault_buffers w
  unfolding plan flush_fault_buffers take_buffers
  plan-flush_fault_buffers w =
      perform_all-append (plan_sends w 0 w.fault.send_buffers) _ (take_buffers w)
      ∙ plan_recvs-replay w.fault.duration_sec 0 w.fault.recv_buffers _
      ∙ ap (replay_recvs 0 w.fault.duration_sec w.fault.recv_buffers)
          (plan_sends-replay w 0 w.fault.send_buffers (take_buffers w) refl)
