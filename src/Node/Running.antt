-- ===== src/Node/Running.antt =====
-- The node of `main` from `ros::spin` on, while its threads run.
use swarm_ros_bridge.Common.{
  ℕ, Bool, true, false, none, get_or, List, map, length, length-map, length-replicate, replicate,
  if◌then◌else◌, ◌≡◌, refl, sym, ap, ◌∙◌, subst,
}
use swarm_ros_bridge.Double.{Double}
use swarm_ros_bridge.Topic.{TopicInfo}
use swarm_ros_bridge.SendThread.{start_send_bitrate_threads}
use swarm_ros_bridge.Control.Server.{ControlServer, IsSound, start_stop-IsSound}
use swarm_ros_bridge.Bridge.Topics.{go}
use swarm_ros_bridge.Node.{Node, Params, Surroundings}
use swarm_ros_bridge.Node.Start.{set_up, start_threads_of, start_server, control_config}
use swarm_ros_bridge.Node.Released.{HasThreads, IsFitted}
use swarm_ros_bridge.Bridge.MsgTypes.{publish_received_message}
use swarm_ros_bridge.Node.Advertised.{IsAdvertised, class_of, name_of, published_as}
use swarm_ros_bridge.Node.Started.{
  IsSetUp, set_up-IsSetUp, socket_of, AreSubscribed, ArePeriods, start_threads-joinable,
}

module _ {W T : Type 0} ⦃d : Double W⦄ where
  -- Open sockets at the topics' addresses, subscriptions to the topics with the topics' callbacks,
  -- a period of the frequency control for each, the publishers, and every thread that the topics
  -- need, each receive thread among them, with its flag up.
  pub record IsRunning (x : Surroundings T) (sends recvs : List (TopicInfo W)) (n : Node W T)
      : Type 0 where
    pub send_topics : n.world.send_topics ≡ sends
    pub recv_topics : n.world.recv_topics ≡ recvs
    pub senders : n.senders ≡ map socket_of sends
    pub receivers : n.receivers ≡ map socket_of recvs
    pub subscribed : AreSubscribed 0 sends n.topic_subs
    pub periods : ArePeriods x.ros_now 0 sends n.periods
    pub pub_names : map name_of n.topic_pubs ≡ map (λ t. t.name) recvs
    pub published :
        (i : ℕ) → get_or (map class_of n.topic_pubs) i none ≡ publish_received_message i n.world
    pub recv_states :
        n.recv_states ≡ replicate (length recvs) (record { thread_flag = true; flag_last = false })
    pub recv_threads : n.recv_threads ≡ replicate (length recvs) true
    pub fitted : IsFitted n
    pub threads : HasThreads n.world
    pub sound : IsSound n.server

  started :
      (b : Bool) (a c u : Node W T)
      → ◌≡◌ {A = Bool × Node W T} (if b then (true, a) else (false, c)) (true, u)
      → a ≡ u
  started true a c u e = ap (λ r. r.1) e
  started false a c u e = cc

  setup-IsRunning :
      (x : Surroundings T) (sends recvs : List (TopicInfo W)) (s : ControlServer) (n : Node W T)
      → IsSetUp x sends recvs n
      → IsSound s
      → IsRunning x sends recvs (start_threads_of (record n { server = s }))
  unfolding start_threads_of start_send_bitrate_threads
  setup-IsRunning x sends recvs s n i q =
      let j = i.initialized in
      let es = ap length (sym j.send_topics) in
      let er = ap length (sym j.recv_topics) in
      record {
        send_topics = j.send_topics;
        recv_topics = j.recv_topics;
        senders = i.senders;
        receivers = i.receivers;
        subscribed = i.subscribed;
        periods = i.periods;
        pub_names = i.advertised.names;
        published = λ k.
            published_as k (start_send_bitrate_threads n.world) n.topic_pubs
              (subst (λ ts. IsAdvertised ts n.topic_pubs) (sym j.recv_topics) i.advertised);
        recv_states =
            ap (λ n. replicate n (record { thread_flag = true; flag_last = false })) (sym er);
        recv_threads = ap (λ n. replicate n true) (sym er);
        fitted = record {
          senders = ap length i.senders ∙ length-map _ sends ∙ es;
          topic_subs = i.topic_subs ∙ es;
          receivers = ap length i.receivers ∙ length-map _ recvs ∙ er;
          topic_pubs = i.topic_pubs ∙ er;
          recv_states = length-replicate _ _;
          recv_threads = length-replicate _ _;
        };
        threads = record {
          sending = rw (j.send_topics, j.controls) (start_threads-joinable sends _ refl);
          monitoring = j.monitoring;
        };
        sound = q;
      }

  pub start_server-IsRunning :
      (x : Surroundings T) (p : Params W) (sends recvs : List (TopicInfo W)) (n u : Node W T)
      → set_up x p sends recvs ≡ go n
      → start_server x p n ≡ (true, u)
      → IsRunning x sends recvs u
  unfolding start_server
  start_server-IsRunning x p sends recvs n u e f =
      let i = set_up-IsSetUp x p sends recvs n e in
      let q : IsSound n.server =
        ap (λ s. s.joinable) i.server ∙ sym (ap (λ s. s.running) i.server) in
      let sound = (start_stop-IsSound (control_config p) x.control_binds n.server q).0 in
      subst (IsRunning x sends recvs) (started _ _ _ u f)
        (setup-IsRunning x sends recvs _ n i sound)
