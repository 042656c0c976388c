-- ===== src/Lib.antt =====
-- swarm_ros_bridge: a model of the bridge node in C++, which carries ROS topics between robots over
-- ZeroMQ, limits their frequency and bitrate, and simulates node faults.
--
-- The parts, the source they model, and how they meet:
-- * Common, Double, Topic, World: the shared state. World holds the topic tables of
--   include/bridge_state.hpp and the state of src/sim_comm.cpp, whose parallel vectors are lists of
--   records with one entry for a topic. What reaches ZMQ, ROS and the scheduler is a log of events.
--   A double is a parameter with the operations that the code uses; Double/Micros is one instance.
-- * Fault and Fault/Policy (parse_fault_policy, start_node_fault, ... of src/sim_comm.cpp): the
--   window of a simulated fault, its policies drop, buffer and latest, and its life cycle.
-- * Replay (flush_fault_buffers, flush_expired_fault_if_needed): the recovery after a window.
-- * Dispatch (dispatch_send_message, dispatch_received_message): the entry points, which hold
--   messages in a window and otherwise pass them on: to ZMQ, to ROS, or to the queue of SendQueue.
--   Each reading of the clock in a call is an argument of its own, so that a window may end within
--   a call. Dispatch/Episode is a whole window, Dispatch/Restart one in which a second fault starts.
-- * Monitor (node_fault_monitor_func): the thread that looks for the end of a fault beside them,
--   and in Monitor/Stopped what it and the calls do once it is stopped.
-- * Threads (dispatch_send_message, dispatch_received_message, send_func and
--   node_fault_monitor_func of src/sim_comm.cpp beside each other): one step for a locked block,
--   for a release of a replay or for a hand-over. Threads/Plan cuts a replay into its releases,
--   Threads/Step has the steps, Threads/Exclusive, Threads/Progress and Threads/Overtake what holds
--   after any of them when faults start on an idle node, Threads/Plan/Pauses how long a replay
--   sleeps, Threads/Unguarded what a delayed start does, and Threads/Turn, Threads/Calls and
--   Threads/Runs how the calls of Dispatch are runs of the steps. Threads/Acts adds the wake-ups
--   of SendThread and of Monitor and the starts of faults to the calls: Threads/Acts/Turns and
--   Threads/Acts/Runs take them for runs of the steps, and Threads/Acts/Returns is about their
--   results.
-- * SendQueue (enqueue_send_message): the bounded queue of a topic with a max_bitrate, its byte
--   counter with the wrap-around of size_t.
-- * SendThread (send_func): the token-bucket thread that empties it. One round is a function of the
--   state at its wake-up; a run is a list of rounds with the queue as other threads left it, in
--   SendThread/Tokens, or one of SendThread/Loop, of wake-ups among calls of the entry points:
--   SendThread/Relay follows one topic's messages through its steps, SendThread/InOrder through
--   all of it, and SendThread/Drain through wake-ups alone. SendThread/Replayed follows it through
--   a recovery, SendThread/InWindow (with the lists of SendThread/Merged) through calls and wake-ups in a fault window, and
--   SendThread/Episode through a whole fault.
-- * Aligned (the parallel vectors of src/sim_comm.cpp): their lengths and those of the topic
--   tables, over every operation in any order.
-- * Control (src/control_server.cpp): the text requests that start a fault, their parsing in
--   Control/Fields, the server's loop, its start and its stop in Control/Server, and what the loop
--   does over any arrivals, with the looks of other threads between them, in Control/OneFault.
-- * Config (the optional parameters of src/sim_comm.cpp) and Text (trim_copy).
-- * Bridge (src/bridge_node.cpp, include/ros_sub_pub.hpp): send_freq_control in Bridge/Frequency,
--   the two frames of a message and recv_func in Bridge/Wire, sub_cb and deserialize_pub in
--   Bridge/Callbacks, the choice by message type in Bridge/MsgTypes, the topic tables that main
--   builds in Bridge/Topics and what they guarantee in Bridge/Ports, the addresses of its sockets
--   in Bridge/Endpoint. Bridge/Pipeline joins a run of sub_cb on one node to a run of recv_func on
--   another: Bridge/Pipeline/Writes is the first, Reads the second and Delivery the two together.
-- * Node (main of src/bridge_node.cpp, stop_send, stop_recv): what main makes after the topic
--   tables, in its order, in Node/Start, and how it takes it down in Node/Stop; what is up when it
--   has started in Node/Started and Node/Running, its publishers in Node/Advertised, what no step
--   of Threads changes in Node/Kept, what the shutdown leaves in Node/Released and how the process
--   ends in Node/Ends. Node/Configured joins the tables of Bridge/Topics to the sockets that
--   Node/Start makes of them. Node/Main is the whole of main, and Node/Leaves and Node/Status are
--   about the ways in which its parts can end the process.
--
-- Conventions. A result of none is an exit of the process, a read out of bounds, or a call that
-- waits while another thread replays; each definition says which. Loops are structural recursion
-- over the queue, the text or the topics, with no fuel but the ten digits that an int can have, in
-- Bridge/Endpoint. The unbounded loops of the threads are modelled by their rounds. Bytes are
-- natural numbers, a clock reading is in nanoseconds, and an int that is only read and compared is
-- an integer.
--
-- Parameters: the doubles, std::stod and its printing; XmlRpc values, which of them the conversions
-- take, and the elements of arrays; zmqpp's packing of a number; ROS serialization; ROS times and
-- their differences; whether a bind or a connect succeeds; what the transport between two nodes
-- makes of the frames that are written (as ZeroMQ documents it of PUB/SUB, it may lose messages,
-- and gives the others in order and once: IsPubSub); and what ros::spin leaves of a node, a run of
-- the steps of Threads (IsSpin).
-- IsOrdered and IsExact say what is used of the doubles: the comparisons on numbers that are not
-- NaN, and sums and differences without rounding.
--
-- Granularity. Dispatch, Monitor and SendThread take a call or a round with its replay as one
-- function. Threads takes the locked blocks apart, with a thread for each topic, which allows every
-- order that the callbacks of ros::spin can have, and more. A fault may start in any state there,
-- or in those that a condition of the relation allows: on an idle node, as the control server
-- starts it.
--
-- The configuration is that of a build with ROS_ASSERT: a failed assertion and an exception that
-- nothing catches are both an abort. Its IP section is a struct.
--
-- Not modelled: the sockets beyond their address and state; the memory of the vector<bool> flags
-- that several threads write; the logs; the scripts, launch files and tests.
pub mod Common
pub mod Double
pub mod Topic
pub mod World
pub mod SendQueue
pub mod Fault
pub mod Replay
pub mod Dispatch
pub mod Monitor
pub mod Threads
pub mod SendThread
pub mod Aligned
pub mod Text
pub mod Control
pub mod Config
pub mod Bridge
pub mod Node
pub mod Tests
