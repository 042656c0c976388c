-- ===== src/Threads.antt =====
-- The threads of the bridge beside each other, one locked block or one release of a replay at a
-- time: the callbacks of the send topics, the receive threads (`recv_func`), the bitrate threads
-- (`send_func`) and the fault monitor. ROS runs the callbacks one after the other; a thread for each
-- topic, as here, allows every order that it does, and more. A clock that all read goes forward.
pub mod Plan
pub mod Step
pub mod Exclusive
pub mod Progress
pub mod Order
pub mod Seen
pub mod Overtake
pub mod Unguarded
pub mod Turn
pub mod Calls
pub mod Runs
pub mod Acts
use swarm_ros_bridge.Common.{ℕ, Bool, true, false, List, [], ◌∷◌, if◌then◌else◌}
use mathlib.Core.Logic.{ite}
use native.Mathlib.Decide.{ℕ_discrete}
use swarm_ros_bridge.Double.{Double}
use swarm_ros_bridge.Topic.{Message}
use swarm_ros_bridge.World.{World, is_limited}
use swarm_ros_bridge.Replay.{send_serialized_message, publish_received_message_after_fault}
use swarm_ros_bridge.SendQueue.{enqueue_send_message}
use swarm_ros_bridge.Dispatch.{hold_sent, hold_received}
use Plan.{Release}

-- The threads, by the topic that they serve.
pub data Tid : Type 0 where
  sender receiver worker : ℕ → Tid
  monitor : Tid

-- A send call has two rounds of a look and a locked block: `dispatch_send_message`, then
-- `consume_send_message_if_fault_active`. A bitrate thread has the second only.
pub data Stage : Type 0 where
  first second : Stage

-- What a thread goes on with after a look for the end of a fault.
pub data After : Type 0 where
  in_call : Stage → Message → After
  in_round : After

-- Where a thread stands: outside; before the look; between setting the recovering flag and the swap
-- of the buffers; in a replay, with the releases left; before its locked block; and with a message
-- that passed it, before the queue, the socket or the publisher.
pub data Pc (W : Type 0) : Type 0 where
  idle : Pc W
  looks : After → Pc W
  swaps : After → Pc W
  replays : After → List (Release W) → Pc W
  locks : Stage → Message → Pc W
  writes : Message → Pc W

pub record System (W : Type 0) : Type 0 where
  pub world : World W
  pub clock : ℕ
  pub pc : Tid → Pc W

pub Tid-discrete : Discrete Tid
Tid-discrete = hlevel (ℕ_discrete)

module _ {W : Type 0} where
  abbrev pub update : (Tid → Pc W) → Tid → Pc W → Tid → Pc W
  update pc t p u = ite (Tid-discrete t u) p (pc u)

  -- From setting the recovering flag to clearing it.
  abbrev pub recovers : Pc W → Bool
  recovers idle = false
  recovers (looks a) = false
  recovers (swaps a) = true
  recovers (replays a rs) = true
  recovers (locks g m) = false
  recovers (writes m) = false

  abbrev pub resume : After → Pc W
  resume (in_call g m) = locks g m
  resume in_round = idle

module _ {W : Type 0} ⦃d : Double W⦄ where
  -- A message that passes the locked block: a send on a topic with no bitrate limit looks again.
  abbrev pub passed : Tid → Stage → Message → World W → Pc W
  passed (sender i) first m w = if is_limited w i then writes m else looks (in_call second m)
  passed (sender i) second m w = writes m
  passed (receiver i) g m w = writes m
  passed (worker i) g m w = writes m
  passed monitor g m w = idle

  unfoldable pub hold : Tid → Message → World W → World W
  unfolding hold_sent hold_received
  hold (sender i) m w = hold_sent i m w
  hold (receiver i) m w = hold_received i m w
  hold (worker i) m w = hold_sent i m w
  hold monitor m w = w

  unfoldable pub hand_over : Tid → Message → World W → World W
  hand_over (sender i) m w =
      if is_limited w i then enqueue_send_message i m w else send_serialized_message i m w
  hand_over (receiver i) m w = publish_received_message_after_fault i m w
  hand_over (worker i) m w = send_serialized_message i m w
  hand_over monitor m w = w
