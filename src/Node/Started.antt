-- ===== src/Node/Started.antt =====
-- What `main` has made when it comes to `ros::spin`.
use swarm_ros_bridge.Common.{
  ℕ, suc, Bool, true, false, not, Bytes, Option, none, some, List, [], ◌∷◌, map, length, replicate,
  if◌then◌else◌, ◌≡◌, refl, sym, ap, ◌∙◌, subst, arith, chained, some-inj,
}
use swarm_ros_bridge.Double.{Double, lt, le, nought}
use swarm_ros_bridge.Topic.{TopicInfo}
use swarm_ros_bridge.World.{World, SendControl}
use swarm_ros_bridge.Fault.{
  parse_policies, initialize_node_fault_control, schedule_node_fault, start_node_fault,
}
use swarm_ros_bridge.SendThread.{initialize_send_bitrate_control, start_threads}
use swarm_ros_bridge.Bridge.MsgTypes.{
  Subscription, Publication, topic_subscriber, IsSubscribed, topic_subscriber-IsSubscribed,
  topic_publisher,
}
use swarm_ros_bridge.Bridge.Topics.{Startup, go, aborts, or_exit, go-inj, exited}
use swarm_ros_bridge.Bridge.Ports.{bind-go}
use swarm_ros_bridge.Bridge.Endpoint.{url}
use swarm_ros_bridge.Aligned.{if-keeps}
use swarm_ros_bridge.Bridge.Frequency.{Period}
use swarm_ros_bridge.Node.{Socket, Handle, Node, Params, Surroundings}
use swarm_ros_bridge.Node.Advertised.{IsAdvertised, advertise-IsAdvertised}
use swarm_ros_bridge.Node.Start.{
  open_sockets, subscribe, advertise, schedule_first, schedule_for, fresh_periods, param, set_up,
  blank_world, no_server,
}

-- One subscription for each topic, in order: it is up, and has the callback of the topic's index,
-- counted from `i`.
pub AreSubscribed : {W : Type 0} → ℕ → List (TopicInfo W) → List (Handle Subscription) → Type 0
AreSubscribed i [] [] = Unit
AreSubscribed i [] (h ∷ hs) = ⊥
AreSubscribed i (t ∷ ts) [] = ⊥
AreSubscribed i (t ∷ ts) (h ∷ hs) =
    IsSubscribed t.name t.msg_type i h.made_from × (h.is_up ≡ true) × AreSubscribed (suc i) ts hs

-- One period for each topic, in order: nothing is counted in it, and it starts at the time of the
-- topic's subscription.
pub ArePeriods : {W T : Type 0} → (ℕ → T) → ℕ → List (TopicInfo W) → List (Period T) → Type 0
ArePeriods now i [] [] = Unit
ArePeriods now i [] (p ∷ ps) = ⊥
ArePeriods now i (t ∷ ts) [] = ⊥
ArePeriods now i (t ∷ ts) (p ∷ ps) =
    (p.send_num ≡ 0) × (p.t_last ≡ now i) × ArePeriods now (suc i) ts ps

fresh_periods-ArePeriods :
    {W T : Type 0} ⦃d : Double W⦄ (x : Surroundings T) (i : ℕ) (ts : List (TopicInfo W))
    → ArePeriods x.ros_now i ts (fresh_periods x i ts)
unfolding fresh_periods ArePeriods
fresh_periods-ArePeriods x i [] = tt
fresh_periods-ArePeriods x i (t ∷ ts) = (refl, refl, fresh_periods-ArePeriods x (suc i) ts)

tested {ℓ} :
    {A : Type ℓ} (b : Bool) (s : Startup A) (a : A) → (if b then s else aborts) ≡ go a → s ≡ go a
tested true s a e = e
tested false s a e = cc

abbrev pub socket_of : {W : Type 0} → TopicInfo W → Socket
socket_of t = record { endpoint = url t; is_open = true }

module _ {W : Type 0} where
  open_sockets-map :
      (succeeds : Bytes → Bool) (ts : List (TopicInfo W)) (ss : List Socket)
      → open_sockets succeeds ts ≡ go ss
      → ss ≡ map socket_of ts
  unfolding open_sockets
  open_sockets-map succeeds [] ss e = sym (go-inj [] ss e)
  open_sockets-map succeeds (t ∷ ts) ss e =
      let (rest, f, g) =
        bind-go (open_sockets succeeds ts) _ ss (tested (succeeds (url t)) _ ss e) in
      sym (go-inj _ ss g) ∙ ap (λ r. socket_of t ∷ r) (open_sockets-map succeeds ts rest f)

  subscribe-AreSubscribed :
      (i : ℕ) (ts : List (TopicInfo W)) (hs : List (Handle Subscription))
      → subscribe i ts ≡ go hs
      → AreSubscribed i ts hs × (length hs ≡ length ts)
  unfolding subscribe AreSubscribed
  subscribe-AreSubscribed i [] hs e = rw (sym (go-inj [] hs e)) (tt, refl)
  subscribe-AreSubscribed i (t ∷ ts) hs e =
      let (s, f, g) = bind-go (or_exit (topic_subscriber t.name t.msg_type i)) _ hs e in
      let (rest, j, k) = bind-go (subscribe (suc i) ts) _ hs g in
      let (subscribed, long) = subscribe-AreSubscribed (suc i) ts rest j in
      rw (sym (go-inj _ hs k)) (
        (topic_subscriber-IsSubscribed t.name t.msg_type i s (exited _ s f), refl, subscribed),
        ap suc long,
      )

  advertise-length :
      (ts : List (TopicInfo W)) (hs : List (Handle Publication))
      → advertise ts ≡ go hs
      → length hs ≡ length ts
  unfolding advertise
  advertise-length [] hs e = ap length (sym (go-inj [] hs e))
  advertise-length (t ∷ ts) hs e =
      let (s, f, g) = bind-go (or_exit (topic_publisher t.name t.msg_type)) _ hs e in
      let (rest, j, k) = bind-go (advertise ts) _ hs g in
      ap length (sym (go-inj _ hs k)) ∙ ap suc (advertise-length ts rest j)

module _ {W : Type 0} ⦃d : Double W⦄ where
  -- The topics and the threads of a world, as the fault control leaves them.
  pub record IsInitialized (sends recvs : List (TopicInfo W)) (w : World W) : Type 0 where
    pub send_topics : w.send_topics ≡ sends
    pub recv_topics : w.recv_topics ≡ recvs
    pub controls :
        w.controls
        ≡ replicate
            (length sends)
            (record { thread_flag = true; joinable = false; queue = []; queue_bytes = 0 })
    pub monitoring : w.fault.joinable ≡ true

  initialize-IsInitialized :
      (sends recvs : List (TopicInfo W)) (w : World W)
      → initialize_node_fault_control true
          (initialize_send_bitrate_control (length sends) (blank_world sends recvs))
        ≡ some w
      → IsInitialized sends recvs w
  unfolding initialize_node_fault_control initialize_send_bitrate_control
  initialize-IsInitialized sends recvs w e =
      let (ps, f, g) = chained (parse_policies sends) _ w e in
      let (qs, h, k) = chained (parse_policies recvs) _ w g in
      let same = some-inj _ w k in
      record {
        send_topics = ap (λ v. v.send_topics) (sym same);
        recv_topics = ap (λ v. v.recv_topics) (sym same);
        controls = ap (λ v. v.controls) (sym same);
        monitoring = ap (λ v. v.fault.joinable) (sym same);
      }

  start_node_fault-IsInitialized :
      (now : ℕ) (duration : W) (sends recvs : List (TopicInfo W)) (w : World W)
      → IsInitialized sends recvs w
      → IsInitialized sends recvs (start_node_fault now duration w)
  unfolding start_node_fault
  start_node_fault-IsInitialized now duration sends recvs w i =
      if-keeps (IsInitialized sends recvs) (le duration nought) w _ i (
        if-keeps (IsInitialized sends recvs) (not w.fault.thread_running) w _ i (record {
          send_topics = i.send_topics;
          recv_topics = i.recv_topics;
          controls = i.controls;
          monitoring = i.monitoring;
        }))

  schedule_first-IsInitialized :
      {T : Type 0} (x : Surroundings T) (p : Params W) (sends recvs : List (TopicInfo W))
      (w : World W)
      → IsInitialized sends recvs w
      → IsInitialized sends recvs (schedule_first x p w).0
  unfolding schedule_first schedule_for schedule_node_fault start_node_fault
  schedule_first-IsInitialized x p sends recvs w i =
      scheduled p.node_fault_duration (param p.node_fault_start_after nought)
    where
      scheduled : (o : Option W) (a : W) → IsInitialized sends recvs (schedule_for x o a w).0
      scheduled none a = i
      scheduled (some duration) a =
          if-keeps (λ (r : World W × Option (W × W)). IsInitialized sends recvs r.0)
            (lt nought duration) _ _
            (if-keeps (λ (r : World W × Option (W × W)). IsInitialized sends recvs r.0)
              (le a nought) _ _
              (start_node_fault-IsInitialized x.steady_now duration sends recvs w i) i)
            i

  pub start_threads-joinable :
      (ts : List (TopicInfo W)) (c : SendControl)
      → c.joinable ≡ false
      → map (λ c. c.joinable) (start_threads ts (replicate (length ts) c))
        ≡ map (λ t. lt nought t.max_bitrate) ts
  unfolding start_threads
  start_threads-joinable [] c e = refl
  start_threads-joinable (t ∷ ts) c e =
      let head : (if lt nought t.max_bitrate then record c { joinable = true } else c).joinable
          ≡ lt nought t.max_bitrate =
        ground (arith, e) in
      rw (head, start_threads-joinable ts c e) refl

module _ {W T : Type 0} ⦃d : Double W⦄ where
  -- The node before its control server.
  pub record IsSetUp (x : Surroundings T) (sends recvs : List (TopicInfo W)) (n : Node W T)
      : Type 0 where
    pub senders : n.senders ≡ map socket_of sends
    pub receivers : n.receivers ≡ map socket_of recvs
    pub subscribed : AreSubscribed 0 sends n.topic_subs
    pub periods : ArePeriods x.ros_now 0 sends n.periods
    pub topic_subs : length n.topic_subs ≡ length sends
    pub topic_pubs : length n.topic_pubs ≡ length recvs
    pub advertised : IsAdvertised recvs n.topic_pubs
    pub initialized : IsInitialized sends recvs n.world
    pub server : n.server ≡ no_server

  pub set_up-IsSetUp :
      (x : Surroundings T) (p : Params W) (sends recvs : List (TopicInfo W)) (n : Node W T)
      → set_up x p sends recvs ≡ go n
      → IsSetUp x sends recvs n
  unfolding set_up
  set_up-IsSetUp x p sends recvs n e =
      let (ss, e₁, f₁) = bind-go (open_sockets x.binds sends) _ n e in
      let (rs, e₂, f₂) = bind-go (open_sockets x.connects recvs) _ n f₁ in
      let (subs, e₃, f₃) = bind-go (subscribe 0 sends) _ n f₂ in
      let (pubs, e₄, f₄) = bind-go (advertise recvs) _ n f₃ in
      let (w, e₅, f₅) =
        bind-go
          (or_exit (
            initialize_node_fault_control true
              (initialize_send_bitrate_control (length sends) (blank_world sends recvs))))
          _ n f₄ in
      let (subscribed, long) = subscribe-AreSubscribed 0 sends subs e₃ in
      let i = initialize-IsInitialized sends recvs w (exited _ w e₅) in
      subst (IsSetUp x sends recvs) (go-inj _ n f₅) (record {
        senders = open_sockets-map x.binds sends ss e₁;
        receivers = open_sockets-map x.connects recvs rs e₂;
        subscribed = subscribed;
        periods = fresh_periods-ArePeriods x 0 sends;
        topic_subs = long;
        topic_pubs = advertise-length recvs pubs e₄;
        advertised = advertise-IsAdvertised recvs pubs e₄;
        initialized = schedule_first-IsInitialized x p sends recvs w i;
        server = refl;
      })
