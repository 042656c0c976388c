-- ===== src/Threads/Plan/Pauses.antt =====
-- How long a replay sleeps: `get_fault_replay_interval` and `get_recv_fault_replay_interval` of
-- src/sim_comm.cpp in the loops of `flush_fault_buffers`.
use swarm_ros_bridge.Common.{
  ℕ, suc, ◌-◌, true, false, List, [], ◌∷◌, ◌++◌, pos, ltb_ℤ, length, replicate, if◌then◌else◌,
  append-nil, append_assoc, ◌≡◌, refl, sym, ap, ◌∙◌, arith,
}
use swarm_ros_bridge.Double.{Double, lit, mul, div, lt, of_size, nought}
use swarm_ros_bridge.Topic.{Message}
use swarm_ros_bridge.World.{World, Event, zmq_sent, published, slept, send_topic, is_limited}
use swarm_ros_bridge.Replay.{
  get_fault_replay_interval, get_recv_fault_replay_interval, take_buffers, flush_fault_buffers,
  replay_send_message, send_serialized_message, publish_received_message_after_fault,
}
use swarm_ros_bridge.SendQueue.{enqueue_send_message}
use swarm_ros_bridge.Aligned.{if-keeps}
use swarm_ros_bridge.Threads.Plan.{
  Release, sleeps_for, sends_to, publishes_on, perform, perform_all, plan_topic, plan_sends,
  plan_recvs, plan, plan-flush_fault_buffers,
}

module _ {W : Type 0} where
  -- The pauses in a log, oldest first, and those of a list of releases.
  abbrev pub sleeps_in : List (Event W) → List W
  sleeps_in [] = []
  sleeps_in (slept t ∷ es) = t ∷ sleeps_in es
  sleeps_in (zmq_sent i m ∷ es) = sleeps_in es
  sleeps_in (published i m ∷ es) = sleeps_in es

  abbrev pauses : List (Release W) → List W
  pauses [] = []
  pauses (sleeps_for t ∷ rs) = t ∷ pauses rs
  pauses (sends_to i m ∷ rs) = pauses rs
  pauses (publishes_on i m ∷ rs) = pauses rs

  sleeps_in-append : (es fs : List (Event W)) → sleeps_in (es ++ fs) ≡ sleeps_in es ++ sleeps_in fs
  sleeps_in-append [] fs = refl
  sleeps_in-append (slept t ∷ es) fs = ap (λ l. t ∷ l) (sleeps_in-append es fs)
  sleeps_in-append (zmq_sent i m ∷ es) fs = sleeps_in-append es fs
  sleeps_in-append (published i m ∷ es) fs = sleeps_in-append es fs

  pauses-append : (rs qs : List (Release W)) → pauses (rs ++ qs) ≡ pauses rs ++ pauses qs
  pauses-append [] qs = refl
  pauses-append (sleeps_for t ∷ rs) qs = ap (λ l. t ∷ l) (pauses-append rs qs)
  pauses-append (sends_to i m ∷ rs) qs = pauses-append rs qs
  pauses-append (publishes_on i m ∷ rs) qs = pauses-append rs qs

module _ {W : Type 0} ⦃d : Double W⦄ where
  -- Of a send topic the replay sends at twice its max_freq, or every 10 ms if it has none.
  abbrev pub send_pauses : World W → ℕ → List (List Message) → List W
  send_pauses w i [] = []
  send_pauses w i (ms ∷ rest) =
      replicate (length ms - 1) (
        if ltb_ℤ (pos 0) (send_topic w i).max_freq
        then div (lit 1 0) (mul (d.of_int (send_topic w i).max_freq) (lit 2 0))
        else lit 1 2)
      ++ send_pauses w (suc i) rest

  -- Of a receive topic the replay of n messages pauses n - 1 times, each time for the n-th part of
  -- half the fault's duration.
  abbrev pub recv_pauses : W → List (List Message) → List W
  recv_pauses duration [] = []
  recv_pauses duration (ms ∷ rest) =
      replicate (length ms - 1) (div duration (mul (of_size (length ms)) (lit 2 0)))
      ++ recv_pauses duration rest

  perform-sleeps :
      (r : Release W) (w : World W)
      → sleeps_in (perform r w).events ≡ sleeps_in w.events ++ pauses (r ∷ [])
  unfolding perform replay_send_message send_serialized_message publish_received_message_after_fault
      enqueue_send_message
  perform-sleeps (sleeps_for t) w = sleeps_in-append w.events _
  perform-sleeps (sends_to i m) w =
      if-keeps (λ (v : World W). sleeps_in v.events ≡ sleeps_in w.events ++ []) (is_limited w i) _ _
        (sym (append-nil _)) (sleeps_in-append w.events _)
  perform-sleeps (publishes_on i m) w =
      if-keeps (λ (v : World W). sleeps_in v.events ≡ sleeps_in w.events ++ [])
        w.fault.publish_callback _ w (sleeps_in-append w.events _) (sym (append-nil _))

  pauses-cons :
      (r : Release W) (rs : List (Release W)) → pauses (r ∷ []) ++ pauses rs ≡ pauses (r ∷ rs)
  pauses-cons r rs = sym (pauses-append (r ∷ []) rs)

  perform_all-sleeps :
      (rs : List (Release W)) (w : World W)
      → sleeps_in (perform_all rs w).events ≡ sleeps_in w.events ++ pauses rs
  unfolding perform_all
  perform_all-sleeps [] w = sym (append-nil _)
  perform_all-sleeps (r ∷ rs) w =
      perform_all-sleeps rs (perform r w)
      ∙ ap (λ l. l ++ pauses rs) (perform-sleeps r w)
      ∙ append_assoc (sleeps_in w.events) (pauses (r ∷ [])) (pauses rs)
      ∙ ap (λ l. sleeps_in w.events ++ l) (pauses-cons r rs)

  -- A release of a message is no pause.
  module _ (release : Message → Release W) (t : W)
      (silent : (m : Message) (rs : List (Release W)) → pauses (release m ∷ rs) ≡ pauses rs) where
    later-pauses :
        (ms : List Message) → pauses (plan_topic release t false ms) ≡ replicate (length ms) t
    unfolding plan_topic
    later-pauses [] = refl
    later-pauses (m ∷ ms) = ap (λ l. t ∷ l) (silent m _ ∙ later-pauses ms)

    topic-pauses :
        (ms : List Message) → pauses (plan_topic release t true ms) ≡ replicate (length ms - 1) t
    unfolding plan_topic
    topic-pauses [] = refl
    topic-pauses (m ∷ ms) = silent m _ ∙ later-pauses ms ∙ ap (λ n. replicate n t) (omega arith)

  send-pauses :
      (w : World W) (i : ℕ) (bs : List (List Message))
      → pauses (plan_sends w i bs) ≡ send_pauses w i bs
  unfolding plan_sends get_fault_replay_interval
  send-pauses w i [] = refl
  send-pauses w i (ms ∷ rest) =
      pauses-append (plan_topic (sends_to i) (get_fault_replay_interval i true w) true ms) _
      ∙ ap (λ l. l ++ pauses (plan_sends w (suc i) rest))
          (topic-pauses (sends_to i) (get_fault_replay_interval i true w) (λ m rs. refl) ms)
      ∙ ap (λ l. replicate (length ms - 1) (get_fault_replay_interval i true w) ++ l)
          (send-pauses w (suc i) rest)

  recv-interval :
      (duration : W) (ms : List Message)
      → lt nought duration ≡ true
      → replicate (length ms - 1) (get_recv_fault_replay_interval (length ms) duration)
        ≡ replicate (length ms - 1) (div duration (mul (of_size (length ms)) (lit 2 0)))
  unfolding get_recv_fault_replay_interval
  recv-interval duration [] h = refl
  recv-interval duration (m ∷ []) h = refl
  recv-interval duration (m ∷ n ∷ ms) h =
      ap (replicate (length (m ∷ n ∷ ms) - 1)) (ground (arith, h))

  recv-pauses :
      (duration : W) (i : ℕ) (bs : List (List Message))
      → lt nought duration ≡ true
      → pauses (plan_recvs duration i bs) ≡ recv_pauses duration bs
  unfolding plan_recvs
  recv-pauses duration i [] h = refl
  recv-pauses duration i (ms ∷ rest) h =
      let t = get_recv_fault_replay_interval (length ms) duration in
      pauses-append (plan_topic (publishes_on i) t true ms) _
      ∙ ap (λ l. l ++ pauses (plan_recvs duration (suc i) rest))
          (topic-pauses (publishes_on i) t (λ m rs. refl) ms ∙ recv-interval duration ms h)
      ∙ ap
          (λ l. replicate (length ms - 1) (div duration (mul (of_size (length ms)) (lit 2 0))) ++ l)
          (recv-pauses duration (suc i) rest h)

  -- After a fault of positive length the replay pauses, topic after topic: for each send topic once
  -- less than it has messages, at twice its max_freq, or for 10 ms if it has none; then for each
  -- receive topic with n messages n - 1 times, each time for the n-th part of half the fault's
  -- duration.
  pub flush_fault_buffers-pauses :
      (w : World W)
      → lt nought w.fault.duration_sec ≡ true
      → sleeps_in (flush_fault_buffers w).events
        ≡ sleeps_in w.events
          ++ (send_pauses w 0 w.fault.send_buffers
              ++ recv_pauses w.fault.duration_sec w.fault.recv_buffers)
  unfolding plan take_buffers
  flush_fault_buffers-pauses w h =
      ap (λ (v : World W). sleeps_in v.events) (sym (plan-flush_fault_buffers w))
      ∙ perform_all-sleeps (plan w) (take_buffers w)
      ∙ ap (λ l. sleeps_in w.events ++ l)
          (pauses-append (plan_sends w 0 w.fault.send_buffers) _
            ∙ ap (λ l. l ++ pauses (plan_recvs w.fault.duration_sec 0 w.fault.recv_buffers))
                (send-pauses w 0 w.fault.send_buffers)
            ∙ ap (λ l. send_pauses w 0 w.fault.send_buffers ++ l)
                (recv-pauses w.fault.duration_sec 0 w.fault.recv_buffers h))
