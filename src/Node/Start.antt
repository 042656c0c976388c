-- ===== src/Node/Start.antt =====
-- `main` of src/bridge_node.cpp, after the configuration and before `ros::spin`.
use swarm_ros_bridge.Common.{
  ℕ, suc, pos, Bytes, codes, is_empty, Bool, true, false, Option, none, some, List, [], ◌∷◌,
  if◌then◌else◌, length, replicate,
}
use swarm_ros_bridge.Double.{Double, lt, nought}
use swarm_ros_bridge.Topic.{TopicInfo}
use swarm_ros_bridge.World.{World}
use swarm_ros_bridge.Fault.{initialize_node_fault_control, schedule_node_fault}
use swarm_ros_bridge.SendThread.{initialize_send_bitrate_control, start_send_bitrate_threads}
use swarm_ros_bridge.Control.{ControlServerConfig}
use swarm_ros_bridge.Control.Server.{ControlServer, start_control_server}
use swarm_ros_bridge.Bridge.Frequency.{Period, fresh}
use swarm_ros_bridge.Bridge.MsgTypes.{Subscription, Publication, topic_subscriber, topic_publisher}
use swarm_ros_bridge.Bridge.Topics.{Startup, go, aborts, ◌>>=◌, or_exit}
use swarm_ros_bridge.Bridge.Endpoint.{url}
use swarm_ros_bridge.Node.{Socket, Handle, Node, Params, Surroundings}

-- The static state of the process before `main` makes anything.
abbrev pub blank_world :
    {W : Type 0} ⦃d : Double W⦄ → List (TopicInfo W) → List (TopicInfo W) → World W
blank_world send_topics recv_topics = record {
  send_topics = send_topics;
  recv_topics = recv_topics;
  controls = [];
  fault = record {
    thread_running = false;
    joinable = false;
    active = false;
    recovering = false;
    duration_sec = nought;
    until = 0;
    publish_callback = false;
    send_policies = [];
    recv_policies = [];
    send_buffers = [];
    recv_buffers = [];
  };
  events = [];
}

abbrev pub default_config : ControlServerConfig
default_config = record {
  enabled = false;
  node_id = [];
  bind_ip = codes "*";
  bind_port = pos 3999;
  token = [];
}

abbrev pub no_server : ControlServer
no_server = record { running = false; joinable = false; active_config = default_config }

-- `nh.param(name, value, default)`.
abbrev pub param {ℓ} : {A : Type ℓ} → Option A → A → A
param none default = default
param (some a) default = a

module _ {W : Type 0} where
  -- The loops over the sockets. A bind or a connect that fails throws, and nothing catches it.
  unfoldable pub open_sockets : (Bytes → Bool) → List (TopicInfo W) → Startup (List Socket)
  unfolding url
  open_sockets succeeds [] = go []
  open_sockets succeeds (t ∷ ts) =
      if succeeds (url t)
      then (do
        rest ← open_sockets succeeds ts
        go (record { endpoint = url t; is_open = true } ∷ rest))
      else aborts

  -- The loops that subscribe and advertise; a type that is not compiled in is an exit.
  unfoldable pub subscribe : ℕ → List (TopicInfo W) → Startup (List (Handle Subscription))
  subscribe i [] = go []
  subscribe i (t ∷ ts) = do
    subscriber ← or_exit (topic_subscriber t.name t.msg_type i)
    rest ← subscribe (suc i) ts
    go (record { made_from = subscriber; is_up = true } ∷ rest)

  unfoldable pub advertise : List (TopicInfo W) → Startup (List (Handle Publication))
  advertise [] = go []
  advertise (t ∷ ts) = do
    publisher ← or_exit (topic_publisher t.name t.msg_type)
    rest ← advertise ts
    go (record { made_from = publisher; is_up = true } ∷ rest)

  unfoldable pub control_config : Params W → ControlServerConfig
  control_config p =
      let node_id = param p.control_node_id [] in
      record {
        enabled = param p.control_enabled false;
        node_id = if is_empty node_id then p.node_name else node_id;
        bind_ip = param p.control_bind_ip (codes "*");
        bind_port = param p.control_bind_port (pos 3999);
        token = param p.control_token [];
      }

module _ {W T : Type 0} ⦃d : Double W⦄ where
  -- The send and receive threads.
  unfoldable pub start_threads_of : Node W T → Node W T
  unfolding start_send_bitrate_threads
  start_threads_of n = record n {
    world = start_send_bitrate_threads n.world;
    recv_states =
        replicate (length n.world.recv_topics) (record { thread_flag = true; flag_last = false });
    recv_threads = replicate (length n.world.recv_topics) true;
  }

module _ {W T : Type 0} ⦃d : Double W⦄ (x : Surroundings T) where
  -- A fault that the parameters ask for, at once or after a delay.
  unfoldable pub schedule_for : Option W → W → World W → World W × Option (W × W)
  unfolding schedule_node_fault
  schedule_for none start_after w = (w, none)
  schedule_for (some duration) start_after w =
      if lt nought duration
      then schedule_node_fault x.steady_now start_after duration w
      else (w, none)

  unfoldable pub schedule_first : Params W → World W → World W × Option (W × W)
  unfolding schedule_for
  schedule_first p w = schedule_for p.node_fault_duration (param p.node_fault_start_after nought) w

  -- The frequency control of each topic starts when the topic is subscribed to.
  unfoldable pub fresh_periods : ℕ → List (TopicInfo W) → List (Period T)
  fresh_periods i [] = []
  fresh_periods i (t ∷ ts) = fresh (x.ros_now i) ∷ fresh_periods (suc i) ts

  -- Everything up to the control server.
  unfoldable pub set_up : Params W → List (TopicInfo W) → List (TopicInfo W) → Startup (Node W T)
  unfolding open_sockets subscribe advertise schedule_first fresh_periods
  set_up p send_topics recv_topics = do
    senders ← open_sockets x.binds send_topics
    receivers ← open_sockets x.connects recv_topics
    subs ← subscribe 0 send_topics
    pubs ← advertise recv_topics
    w ← or_exit (
        initialize_node_fault_control true (
          initialize_send_bitrate_control (length send_topics)
            (blank_world send_topics recv_topics)))
    let (v, delayed) = schedule_first p w
    go (record {
      world = v;
      senders = senders;
      receivers = receivers;
      topic_subs = subs;
      periods = fresh_periods 0 send_topics;
      topic_pubs = pubs;
      delayed_start = delayed;
      server = no_server;
      recv_states = [];
      recv_threads = [];
    })

  -- The control server, and the threads if it has started. `false`: `main` returns 4.
  unfoldable pub start_server : Params W → Node W T → Bool × Node W T
  unfolding start_control_server start_threads_of control_config
  start_server p n =
      let (ok, server) = start_control_server (control_config p) x.control_binds n.server in
      let n' = record n { server = server } in
      if ok then (true, start_threads_of n') else (false, n')
