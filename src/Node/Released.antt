-- ===== src/Node/Released.antt =====
-- What is left after `main` has taken the node down.
use swarm_ros_bridge.Common.{
  ℕ, zero, suc, ◌+◌, Bool, true, false, List, [], ◌∷◌, map, length, get_or, modify, if◌then◌else◌,
  ◌≡◌, refl, sym, ap, ◌∙◌, subst, arith, length-map,
}
use swarm_ros_bridge.Double.{Double, IsOrdered, lt, le, nought}
use swarm_ros_bridge.Topic.{TopicInfo}
use swarm_ros_bridge.World.{World, SendControl, no_topic, send_topic, no_control}
use swarm_ros_bridge.Fault.{stop_node_fault_control}
use swarm_ros_bridge.SendThread.{stop_send_bitrate_control}
use swarm_ros_bridge.Control.Server.{stop_control_server, IsSound}
use swarm_ros_bridge.Node.{Node}
use swarm_ros_bridge.Node.Stop.{
  close, lower, shut, any, stop_send, stop_recv, stop_each, shut_down, has_joinable,
}
use swarm_ros_bridge.Node.Sweep.{sweep, map_from, sweep_all, swept, modify-id}

tail : {A : Type 0} → List A → List A
tail [] = []
tail (x ∷ xs) = xs

module _ {W : Type 0} ⦃d : Double W⦄ where
  abbrev stop_control : List (TopicInfo W) → ℕ → SendControl → SendControl
  stop_control ts i c =
      if le (get_or ts i no_topic).max_bitrate nought
      then c
      else record c { thread_flag = false; joinable = false }

  unless_free :
      (free : Bool) (i : ℕ) (w : World W) (f : SendControl → SendControl)
      → (if free then w else record w { controls = modify w.controls i f })
        ≡ record w { controls = modify w.controls i (λ c. if free then c else f c) }
  unless_free true i w f = ap (λ cs. record w { controls = cs }) (sym (modify-id w.controls i))
  unless_free false i w f = refl

  stop_send_bitrate_control-modify :
      (i : ℕ) (w : World W)
      → stop_send_bitrate_control i w
        ≡ record w { controls = modify w.controls i (stop_control w.send_topics i) }
  unfolding stop_send_bitrate_control
  stop_send_bitrate_control-modify i w =
      unless_free (le (send_topic w i).max_bitrate nought) i w
        (λ c. record c { thread_flag = false; joinable = false })

  -- A send thread can be joined exactly on the topics with a bitrate limit.
  pub record HasThreads (w : World W) : Type 0 where
    pub sending :
        map (λ c. c.joinable) w.controls ≡ map (λ t. lt nought t.max_bitrate) w.send_topics
    pub monitoring : w.fault.joinable ≡ true

  unlimited-joinable :
      (o : IsOrdered W) (cs : List SendControl) (ts : List (TopicInfo W)) (k : ℕ)
      → map (λ c. c.joinable) cs ≡ map (λ t. lt nought t.max_bitrate) ts
      → le (get_or ts k no_topic).max_bitrate nought ≡ true
      → (get_or cs k no_control).joinable ≡ false
  unfolding tail
  unlimited-joinable o [] ts k e h = refl
  unlimited-joinable o (c ∷ cs) [] k e h = cc
  unlimited-joinable o (c ∷ cs) (t ∷ ts) zero e h =
      ap (λ bs. get_or bs 0 false) e ∙ o.not_lt_of_le t.max_bitrate nought h
  unlimited-joinable o (c ∷ cs) (t ∷ ts) (suc k) e h = unlimited-joinable o cs ts k (ap tail e) h

  stop_control-joinable :
      (ts : List (TopicInfo W)) (i : ℕ) (c : SendControl)
      → (le (get_or ts i no_topic).max_bitrate nought ≡ true → c.joinable ≡ false)
      → (stop_control ts i c).joinable ≡ false
  stop_control-joinable ts i c h = ground (arith, h)

  none_left :
      (ts : List (TopicInfo W)) (i : ℕ) (cs : List SendControl)
      → ((j k : ℕ)
          → j ≡ i + k
          → le (get_or ts j no_topic).max_bitrate nought ≡ true
          → (get_or cs k no_control).joinable ≡ false)
      → any (λ c. c.joinable) (map_from (stop_control ts) i cs) ≡ false
  none_left ts i [] h = refl
  none_left ts i (c ∷ cs) h =
      rw
        (
          stop_control-joinable ts i c (h i 0 (omega arith)),
          none_left ts (i + 1) cs (λ j k e. h j (suc k) (omega (arith, e))),
        )
        refl

module _ {W T : Type 0} ⦃d : Double W⦄ where
  stop_each-stop_send :
      (i left : ℕ) (n : Node W T)
      → stop_each stop_send i left n ≡ record n {
        topic_subs = sweep (λ j. shut) i left n.topic_subs;
        senders = sweep (λ j. close) i left n.senders;
        world = record n.world {
          controls = sweep (stop_control n.world.send_topics) i left n.world.controls;
        };
      }
  unfolding stop_each stop_send
  stop_each-stop_send i zero n = refl
  stop_each-stop_send i (suc left) n =
      ap
        (λ w. stop_each stop_send (i + 1) left (record n {
          topic_subs = modify n.topic_subs i shut;
          world = w;
          senders = modify n.senders i close;
        }))
        (stop_send_bitrate_control-modify i n.world)
      ∙ stop_each-stop_send (i + 1) left _

  stop_each-stop_recv :
      (i left : ℕ) (n : Node W T)
      → stop_each stop_recv i left n ≡ record n {
        recv_states = sweep (λ j. lower) i left n.recv_states;
        receivers = sweep (λ j. close) i left n.receivers;
        topic_pubs = sweep (λ j. shut) i left n.topic_pubs;
      }
  unfolding stop_each stop_recv
  stop_each-stop_recv i zero n = refl
  stop_each-stop_recv i (suc left) n = stop_each-stop_recv (i + 1) left (stop_recv i n)

  -- One entry for each topic in the vectors that the two loops of `main` take down.
  pub record IsFitted (n : Node W T) : Type 0 where
    pub senders : length n.senders ≡ length n.world.send_topics
    pub topic_subs : length n.topic_subs ≡ length n.world.send_topics
    pub receivers : length n.receivers ≡ length n.world.recv_topics
    pub topic_pubs : length n.topic_pubs ≡ length n.world.recv_topics
    pub recv_states : length n.recv_states ≡ length n.world.recv_topics
    pub recv_threads : length n.recv_threads ≡ length n.world.recv_topics

  -- What `shut_down` leaves of a node with one entry for each topic.
  shut_down-fields :
      (n : Node W T)
      → IsFitted n
      → length n.world.controls ≡ length n.world.send_topics
      → shut_down n ≡ record n {
        server = stop_control_server n.server;
        world = record (stop_node_fault_control n.world) {
          controls = map_from (stop_control n.world.send_topics) 0 n.world.controls;
        };
        topic_subs = map shut n.topic_subs;
        senders = map close n.senders;
        recv_states = map lower n.recv_states;
        receivers = map close n.receivers;
        topic_pubs = map shut n.topic_pubs;
      }
  unfolding shut_down stop_node_fault_control
  shut_down-fields n f e =
      let m = record n {
        server = stop_control_server n.server;
        world = stop_node_fault_control n.world;
      } in
      ap (stop_each stop_recv 0 (length n.world.recv_topics))
        (stop_each-stop_send 0 (length n.world.send_topics) m)
      ∙ stop_each-stop_recv 0 (length n.world.recv_topics) _
      ∙ rw
          (
            swept shut _ n.topic_subs f.topic_subs,
            swept close _ n.senders f.senders,
            sweep_all (stop_control n.world.send_topics) _ n.world.controls (sym e),
            swept lower _ n.recv_states f.recv_states,
            swept close _ n.receivers f.receivers,
            swept shut _ n.topic_pubs f.topic_pubs,
          )
          refl

  -- From a node with one entry for each topic in its vectors, whose send threads and monitor are as
  -- they were started and whose control server is sound, the shutdown closes every socket, shuts every
  -- subscriber and publisher, tells every receive thread to stop, and joins every other thread: what
  -- can be joined after it is what could be of the receive threads. The doubles are in order.
  pub shut_down-released :
      (o : IsOrdered W) (n : Node W T)
      → IsFitted n
      → HasThreads n.world
      → IsSound n.server
      → (has_joinable (shut_down n) ≡ any (λ b. b) n.recv_threads)
        × ((shut_down n).senders ≡ map close n.senders)
        × ((shut_down n).receivers ≡ map close n.receivers)
        × ((shut_down n).topic_subs ≡ map shut n.topic_subs)
        × ((shut_down n).topic_pubs ≡ map shut n.topic_pubs)
        × ((shut_down n).recv_states ≡ map lower n.recv_states)
  unfolding has_joinable stop_control_server stop_node_fault_control
  shut_down-released o n f h q =
      let cs = n.world.controls in
      let ts = n.world.send_topics in
      let e : length cs ≡ length ts =
        sym (length-map (λ c. c.joinable) cs)
        ∙ ap length h.sending
        ∙ length-map (λ t. lt nought t.max_bitrate) ts in
      let free = none_left ts 0 cs (λ j k same u. unlimited-joinable o cs ts k h.sending (
        subst (λ (i : ℕ). le (get_or ts i no_topic).max_bitrate nought ≡ true) (same ∙ omega arith)
          u)) in
      let server : (stop_control_server n.server).joinable ≡ false = ground (arith, q) in
      rw (shut_down-fields n f e) (rw (free, server) refl, refl, refl, refl, refl, refl)
