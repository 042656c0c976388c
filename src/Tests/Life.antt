-- ===== src/Tests/Life.antt =====
-- A node with two send topics and one receive topic, from its start to its end.
use swarm_ros_bridge.Common.{
  length, ◌≤◌, ◌+◌, ℕ, ℤ, pos, Bytes, codes, true, false, none, some, [], ◌∷◌, map, ◌≡◌, refl,
  replicate, arith,
}
use swarm_ros_bridge.Double.Micros.{Micros, micros_double, Micros-IsOrdered}
use swarm_ros_bridge.Fault.{
  initialize_node_fault_control, parse_policies, schedule_node_fault, start_node_fault,
}
use swarm_ros_bridge.Fault.Policy.{parse_fault_policy}
use swarm_ros_bridge.SendThread.{
  initialize_send_bitrate_control, start_threads, start_send_bitrate_threads,
}
use swarm_ros_bridge.Control.Server.{start_control_server}
use swarm_ros_bridge.Topic.{drop, latest}
use swarm_ros_bridge.Control.{ControlServerConfig}
use swarm_ros_bridge.Bridge.Frequency.{fresh}
use swarm_ros_bridge.Node.Started.{socket_of}
use swarm_ros_bridge.Bridge.MsgTypes.{
  Subscription, string, topic_subscriber, topic_publisher, nh_sub, sub_callbacks,
}
use swarm_ros_bridge.Bridge.Topics.{go}
use swarm_ros_bridge.Threads.{idle, System}
use swarm_ros_bridge.Node.{Node, Handle, Params, Surroundings}
use swarm_ros_bridge.Node.Start.{
  fresh_periods, no_server, default_config, open_sockets, subscribe, advertise, schedule_first,
  schedule_for, control_config, set_up, start_threads_of, start_server,
}
use swarm_ros_bridge.Node.Stop.{close, lower, shut, has_joinable, shut_down}
use swarm_ros_bridge.Node.Released.{shut_down-released}
use swarm_ros_bridge.Node.Running.{IsRunning, start_server-IsRunning}
use swarm_ros_bridge.Node.Configured.{DistinctEndpoints, configure-set_up}
use swarm_ros_bridge.World.{World}
use swarm_ros_bridge.Tests.Data.{control_of, fault_of, seconds, at}
use swarm_ros_bridge.Tests.Startup.{
  xml, array, hosts, sends_xml, recvs_xml, configure_runs, sends_built, recvs_built,
}

abbrev around : Surroundings ℕ
around = record {
  binds = λ s. true;
  connects = λ s. true;
  control_binds = true;
  ros_now = λ i. 7 + i;
  steady_now = at 3;
}

-- A control server is asked for on a port, and a fault of two seconds at once.
abbrev asks : ℤ → Params Micros
asks port = record {
  node_fault_duration = some (seconds 2);
  node_fault_start_after = none;
  control_enabled = some true;
  control_node_id = none;
  control_bind_ip = none;
  control_bind_port = some port;
  control_token = none;
  node_name = codes "/bridge";
}

abbrev subscribed : Bytes → ℕ → Handle Subscription
subscribed name i = record {
  made_from = record { topic_name = name; class = string; queue_size = 10; callback = i };
  is_up = true;
}

abbrev made : Node Micros ℕ
made = record {
  world = record {
    send_topics = sends_built;
    recv_topics = recvs_built;
    controls = replicate 2 (record (control_of [] 0) { joinable = false });
    fault = record (fault_of true (at 5) ([] ∷ [] ∷ []) ([] ∷ [])) {
      send_policies = drop ∷ latest ∷ [];
      recv_policies = drop ∷ [];
    };
    events = [];
  };
  senders = map socket_of sends_built;
  receivers = map socket_of recvs_built;
  topic_subs = subscribed (codes "/a") 0 ∷ subscribed (codes "/b") 1 ∷ [];
  periods = fresh 7 ∷ fresh 8 ∷ [];
  topic_pubs =
      record {
        made_from = record { topic_name = codes "/c"; class = string; queue_size = 10 };
        is_up = true;
      }
      ∷ [];
  delayed_start = none;
  server = no_server;
  recv_states = [];
  recv_threads = [];
}

abbrev config : ℤ → ControlServerConfig
config port = record default_config { enabled = true; node_id = codes "/bridge"; bind_port = port }

abbrev up : Node Micros ℕ
up = record made {
  world = record made.world {
    controls = record (control_of [] 0) { joinable = false } ∷ control_of [] 0 ∷ [];
  };
  server = record { running = true; joinable = true; active_config = config (pos 3999) };
  recv_states = record { thread_flag = true; flag_last = false } ∷ [];
  recv_threads = true ∷ [];
}

made_from : (p : ℤ) → set_up around (asks p) sends_built recvs_built ≡ go made
unfolding set_up fresh_periods open_sockets subscribe advertise schedule_first schedule_for
    schedule_node_fault start_node_fault initialize_node_fault_control parse_policies
    parse_fault_policy initialize_send_bitrate_control topic_subscriber topic_publisher nh_sub
    sub_callbacks
made_from p = refl

up_from : start_server around (asks (pos 3999)) made ≡ (true, up)
unfolding start_server start_control_server start_threads_of start_send_bitrate_threads
    start_threads control_config
up_from = refl

up-IsRunning : IsRunning around sends_built recvs_built up
up-IsRunning =
    start_server-IsRunning around (asks (pos 3999)) sends_built recvs_built made up (made_from _)
      up_from

-- While it spins, a second fault starts after ten seconds.
abbrev spin : Node Micros ℕ → World Micros
spin u = start_node_fault (at 13) (seconds 2) u.world

abbrev first : Node Micros ℕ → System Micros
first u = record { world = u.world; clock = at 3; pc = λ t. idle }

abbrev last : Node Micros ℕ → System Micros
last u = record { world = spin u; clock = at 13; pc = λ t. idle }

shut_down-released_example :
    (has_joinable (shut_down up) ≡ true)
    × ((shut_down up).senders ≡ map close up.senders)
    × ((shut_down up).receivers ≡ map close up.receivers)
    × ((shut_down up).topic_subs ≡ map shut up.topic_subs)
    × ((shut_down up).topic_pubs ≡ map shut up.topic_pubs)
    × ((shut_down up).recv_states ≡ map lower up.recv_states)
shut_down-released_example =
    shut_down-released Micros-IsOrdered up up-IsRunning.fitted up-IsRunning.threads refl

configure-set_up_example :
    (length made.senders ≡ 2)
    × (length made.senders ≤ 50)
    × DistinctEndpoints made.senders
    × (length made.receivers ≡ 1)
configure-set_up_example =
    configure-set_up xml (some hosts) (some (array sends_xml)) (some (array recvs_xml)) around
      (asks (pos 3999)) sends_built recvs_built made configure_runs (omega arith, (omega arith, tt))
      (made_from _)
