-- ===== src/Tests/Faults.antt =====
-- Fault windows: held messages, recovery, and the order about the end of a window.
use swarm_ros_bridge.Common.{ℕ, List, false, some, [], ◌∷◌, ◌++◌, ◌≡◌, refl, arith}
use swarm_ros_bridge.Double.Micros.{Micros, micros_double}
use swarm_ros_bridge.World.{World}
use swarm_ros_bridge.Fault.{start_node_fault, stop_node_fault_control}
use swarm_ros_bridge.Fault.Policy.{apply_fault_policy_to_buffer, apply_fault_policy-retained}
use swarm_ros_bridge.Topic.{latest}
use swarm_ros_bridge.Replay.{flush_fault_buffers, flush_expired_fault_if_needed}
use swarm_ros_bridge.Replay.Log.{sent, shown}
use swarm_ros_bridge.Dispatch.{
  Call, sends, run_calls, dispatch_send_message, dispatch_received_message,
}
use swarm_ros_bridge.Dispatch.Calls.{AllBefore}
use swarm_ros_bridge.Dispatch.Window.{IsOpen}
use swarm_ros_bridge.Dispatch.Recovery.{IsReady}
use swarm_ros_bridge.Dispatch.Episode.{SentFree, ShownAll, fault_episode}
use swarm_ros_bridge.Dispatch.Restart.{restarted_episode}
use swarm_ros_bridge.Dispatch.Resume.{receive_after_episode, send_after_episode}
use swarm_ros_bridge.Dispatch.Order.{receive_overtakes, dispatch_send_message-InOrder, InOrder}
use swarm_ros_bridge.Monitor.{leaves_loop, monitor_top, by_monitor, by_entry, run_looks}
use swarm_ros_bridge.Monitor.Stopped.{run_calls-stop_node_fault_control}
use swarm_ros_bridge.Monitor.Once.{recovered, run_looks-once}
use swarm_ros_bridge.Threads.Plan.Pauses.{sleeps_in, flush_fault_buffers-pauses}
use swarm_ros_bridge.Tests.Data.{msg, seconds, at, idle_world, held_world, window_calls}

idle_world-IsReady : IsReady idle_world (seconds 2)
idle_world-IsReady = record { positive = refl; running = refl; steady = refl }

pub held_world-IsOpen : IsOpen held_world.fault
held_world-IsOpen = record { active = refl; steady = refl }

window_calls-AllBefore : AllBefore (at 5) window_calls
window_calls-AllBefore = (
  (omega arith, omega arith),
  ((omega arith, omega arith), ((omega arith, omega arith), ((omega arith, omega arith), tt))),
)

fault_episode_example :
    (v u : World Micros) × (run_calls window_calls (start_node_fault (at 3) (seconds 2) idle_world)
      ≡ some v)
    × (v.events ≡ [])
    × (flush_expired_fault_if_needed (at 6) v ≡ u)
    × (u.fault.active ≡ false)
    × (u.fault.recovering ≡ false)
    × ((i : ℕ) → SentFree idle_world window_calls u i)
    × ((j : ℕ) → ShownAll idle_world window_calls u j)
fault_episode_example =
    fault_episode (at 3) (at 6) (seconds 2) idle_world window_calls idle_world-IsReady refl
      window_calls-AllBefore (omega arith)

-- The second fault starts while the first is on, and lasts longer; a last message comes then.
abbrev later_calls : List Call
later_calls = sends 0 (msg 9) (at 5) (at 5) (at 5) (at 5) ∷ []

restarted_episode_example :
    (v v' u : World Micros) × (run_calls window_calls
        (start_node_fault (at 3) (seconds 2) idle_world)
      ≡ some v)
    × (run_calls later_calls (start_node_fault (at 4) (seconds 2) v) ≡ some v')
    × (flush_expired_fault_if_needed (at 6) v' ≡ u)
    × ((i : ℕ) → SentFree idle_world later_calls u i)
    × ((j : ℕ) → ShownAll idle_world later_calls u j)
restarted_episode_example =
    restarted_episode (at 3) (at 4) (at 6) (seconds 2) (seconds 2) idle_world window_calls
      later_calls idle_world-IsReady refl refl window_calls-AllBefore
      ((omega arith, omega arith), tt) (omega arith)

receive_after_episode_example :
    (v u : World Micros) × (run_calls window_calls (start_node_fault (at 3) (seconds 2) idle_world)
      ≡ some v)
    × (dispatch_received_message 0 (msg 9) (at 6) (at 6) v ≡ some u)
    × (shown 0 u ≡ msg 6 ∷ msg 8 ∷ msg 9 ∷ [])
receive_after_episode_example =
    receive_after_episode (at 3) (at 6) (at 6) (seconds 2) idle_world window_calls 0 (msg 9)
      idle_world-IsReady refl window_calls-AllBefore (omega arith) (omega arith)

send_after_episode_example :
    (v u : World Micros) × (run_calls window_calls (start_node_fault (at 3) (seconds 2) idle_world)
      ≡ some v)
    × (dispatch_send_message 0 (msg 9) (at 6) (at 6) (at 6) (at 6) v ≡ some u)
    × (sent 0 u ≡ msg 5 ∷ msg 7 ∷ msg 9 ∷ [])
send_after_episode_example =
    send_after_episode (at 3) (at 6) (at 6) (at 6) (at 6) (seconds 2) idle_world window_calls 0
      (msg 9) idle_world-IsReady refl window_calls-AllBefore (omega arith) (omega arith) refl

dispatch_send_message-InOrder_example :
    (u : World Micros) × (dispatch_send_message 0 (msg 9) (at 4) (at 4) (at 6) (at 6) held_world
      ≡ some u)
    × InOrder 0 (msg 9) held_world u
dispatch_send_message-InOrder_example =
    dispatch_send_message-InOrder 0 (msg 9) (at 4) (at 4) (at 6) (at 6) held_world held_world-IsOpen
      refl (omega arith) (omega arith)

receive_overtakes_example :
    (u : World Micros) × (dispatch_received_message 0 (msg 9) (at 4) (at 6) held_world ≡ some u)
    × (shown 0 u ≡ msg 9 ∷ [])
    × (u.fault ≡ held_world.fault)
receive_overtakes_example =
    receive_overtakes 0 (msg 9) (at 4) (at 6) held_world held_world-IsOpen refl (omega arith)
      (omega arith)

apply_fault_policy-retained_example :
    apply_fault_policy_to_buffer latest (msg 2) (msg 1 ∷ []) ≡ msg 2 ∷ []
apply_fault_policy-retained_example = apply_fault_policy-retained latest (msg 2) (msg 1 ∷ [])

run_looks-once_example :
    run_looks
      ((by_monitor (at 4) ∷ by_entry (at 4) ∷ []) ++ by_monitor (at 5) ∷ by_entry (at 6) ∷ [])
      held_world
    ≡ recovered held_world
run_looks-once_example =
    run_looks-once (by_monitor (at 4) ∷ by_entry (at 4) ∷ []) (by_entry (at 6) ∷ [])
      (by_monitor (at 5)) held_world refl refl (omega arith, (omega arith, tt)) (omega arith)

-- Three messages sent and three received are held back.
abbrev crowded_world : World Micros
crowded_world = record held_world {
  fault = record held_world.fault {
    send_buffers = (msg 3 ∷ msg 4 ∷ msg 5 ∷ []) ∷ [] ∷ [];
    recv_buffers = (msg 6 ∷ msg 7 ∷ msg 8 ∷ []) ∷ [];
  };
}

flush_fault_buffers-pauses_example :
    sleeps_in (flush_fault_buffers crowded_world).events ≡ 50_000 ∷ 50_000 ∷ 333_333 ∷ 333_333 ∷ []
flush_fault_buffers-pauses_example = flush_fault_buffers-pauses crowded_world refl

run_calls-stop_node_fault_control_example :
    (v : World Micros) × (run_calls window_calls (stop_node_fault_control held_world) ≡ some v)
    × (start_node_fault (at 9) (seconds 2) v ≡ v)
    × (monitor_top v ≡ leaves_loop)
run_calls-stop_node_fault_control_example =
    run_calls-stop_node_fault_control held_world window_calls (at 9) (seconds 2)
