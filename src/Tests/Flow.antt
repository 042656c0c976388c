-- ===== src/Tests/Flow.antt =====
-- A limited topic from the entry point to its socket, with no fault and through one.
use mathlib.Core.List.{Sublist}
use swarm_ros_bridge.Common.{some, List, [], ◌∷◌, ◌++◌, ◌≡◌, refl, arith}
use swarm_ros_bridge.Double.Micros.{Micros, micros_double, Micros-IsExact}
use swarm_ros_bridge.Topic.{Message, latest}
use swarm_ros_bridge.World.{World, control}
use swarm_ros_bridge.SendQueue.{max_queue_bytes}
use swarm_ros_bridge.SendQueue.Bounds.{IsCounted}
use swarm_ros_bridge.Replay.Log.{sent}
use swarm_ros_bridge.Dispatch.{sends, receives}
use swarm_ros_bridge.SendThread.{Bucket}
use swarm_ros_bridge.SendThread.Loop.{Turn, calls, wakes, run_turns}
use swarm_ros_bridge.SendThread.Relay.Queued.{most, room}
use swarm_ros_bridge.SendThread.InOrder.{IsSteady, run_turns-InOrder, run_turns-whole}
use swarm_ros_bridge.SendThread.Drain.{Draining, wake_ups, run_turns-drains}
use swarm_ros_bridge.Fault.{start_node_fault}
use swarm_ros_bridge.Replay.{flush_expired_fault_if_needed}
use swarm_ros_bridge.Dispatch.Recovery.{IsReady}
use swarm_ros_bridge.SendThread.InWindow.{AllWithin}
use swarm_ros_bridge.SendThread.Merged.{Merged}
use swarm_ros_bridge.Fault.Policy.{retained}
use swarm_ros_bridge.SendThread.Episode.{IsQueued, fault_episode-queue, fault_episode-queue_whole}
use swarm_ros_bridge.Tests.Data.{msg, seconds, at, idle_world}
use swarm_ros_bridge.Tests.Rates.{idle_queue-IsCounted}

-- Two messages wait; a third comes, one on another topic, and the thread wakes up twice.
abbrev turns : List Turn
turns =
    calls (sends 1 (msg 3) (at 2) (at 2) (at 2) (at 2))
    ∷ wakes (at 3) (at 3) (at 3)
    ∷ calls (sends 0 (msg 9) (at 3) (at 3) (at 3) (at 3))
    ∷ calls (receives 0 (msg 8) (at 3) (at 3))
    ∷ wakes (at 4) (at 4) (at 4)
    ∷ []

most_room : most idle_world 1 1 ≡ 200
unfolding max_queue_bytes
most_room = refl

free_room : room idle_world 1 ≡ 200
unfolding max_queue_bytes
free_room = refl

idle_world-IsSteady : IsSteady 1 1 idle_world
idle_world-IsSteady = record {
  idle = record { inactive = refl; steady = refl };
  limited = refl;
  tracked = omega arith;
  counted = idle_queue-IsCounted;
  within = omega (arith, most_room);
  small = omega (arith, most_room);
}

abbrev bucket : Bucket Micros
bucket = record { available_tokens = 0; last_refill_time = at 2 }

run_turns-InOrder_example :
    (b' : Bucket Micros) × (u : World Micros) × (written : List Message) × (run_turns 1 turns bucket
        idle_world
      ≡ some (b', u))
    × (sent 1 u ≡ written)
    × Sublist (written ++ (control u 1).queue) (msg 1 ∷ msg 2 ∷ msg 3 ∷ [])
    × IsCounted (control u 1)
run_turns-InOrder_example =
    run_turns-InOrder 1 1 turns bucket idle_world idle_world-IsSteady (omega arith, tt)

run_turns-whole_example :
    (b' : Bucket Micros) × (u : World Micros) × (written : List Message) × (run_turns 1 turns bucket
        idle_world
      ≡ some (b', u))
    × (sent 1 u ≡ written)
    × (written ++ (control u 1).queue ≡ msg 1 ∷ msg 2 ∷ msg 3 ∷ [])
run_turns-whole_example =
    run_turns-whole 1 1 turns bucket idle_world idle_world-IsSteady (omega arith, tt) (omega arith)
      (omega (arith, free_room))

idle_world-Draining : Draining 1 (seconds 1000) (msg 1 ∷ msg 2 ∷ []) bucket idle_world
idle_world-Draining = record {
  idle = record { inactive = refl; steady = refl };
  tracked = omega arith;
  paid_at = refl;
  runs = refl;
  holds = refl;
  counted = idle_queue-IsCounted;
  small = omega arith;
  no_debt = refl;
}

run_turns-drains_example :
    (b' : Bucket Micros) × (u : World Micros) × (run_turns 1
        (wake_ups ((at 3, at 3, at 3) ∷ (at 4, at 4, at 4) ∷ []))
        bucket
        idle_world
      ≡ some (b', u))
    × (sent 1 u ≡ msg 1 ∷ msg 2 ∷ [])
    × ((control u 1).queue ≡ [])
run_turns-drains_example =
    run_turns-drains Micros-IsExact 1 (seconds 1000) refl (msg 1 ∷ msg 2 ∷ [])
      ((at 3, at 3, at 3) ∷ (at 4, at 4, at 4) ∷ []) bucket idle_world idle_world-Draining
      (refl, (refl, refl))

idle_world-IsReady : IsReady idle_world (seconds 2)
idle_world-IsReady = record { positive = refl; running = refl; steady = refl }

idle_world-IsQueued : IsQueued 1 1 idle_world
idle_world-IsQueued = record {
  limited = refl;
  tracked = omega arith;
  counted = idle_queue-IsCounted;
  within = omega (arith, most_room);
  small = omega (arith, most_room);
}

-- Two messages come in the window, and the thread of their topic wakes up between them.
abbrev slow_turns : List Turn
slow_turns =
    calls (sends 1 (msg 5) (at 3) (at 3) (at 3) (at 3))
    ∷ wakes (at 4) (at 4) (at 4)
    ∷ calls (receives 0 (msg 6) (at 4) (at 4))
    ∷ calls (sends 1 (msg 7) (at 4) (at 4) (at 4) (at 4))
    ∷ []

slow_turns-AllWithin : AllWithin (at 5) slow_turns
slow_turns-AllWithin = (
  (omega arith, omega arith),
  ((omega arith, omega arith), ((omega arith, omega arith), ((omega arith, omega arith), tt))),
)

fault_episode-queue_example :
    (b' : Bucket Micros) × (v : World Micros) × (taken rest seen : List Message) × (run_turns 1
        slow_turns bucket
        (start_node_fault (at 3) (seconds 2) idle_world)
      ≡ some (b', v))
    × (msg 1 ∷ msg 2 ∷ [] ≡ taken ++ rest)
    × Merged (msg 5 ∷ msg 7 ∷ []) taken seen
    × Sublist
        (control (flush_expired_fault_if_needed (at 6) v) 1).queue
        (rest ++ retained latest seen)
    × IsCounted (control (flush_expired_fault_if_needed (at 6) v) 1)
    × (sent 1 (flush_expired_fault_if_needed (at 6) v) ≡ [])
fault_episode-queue_example =
    fault_episode-queue (at 3) (at 6) (seconds 2) idle_world slow_turns bucket 1 1
      idle_world-IsReady slow_turns-AllWithin (omega arith) (omega arith) idle_world-IsQueued
      (omega arith, (omega arith, tt)) (omega arith, (omega arith, tt))

fault_episode-queue_whole_example :
    (b' : Bucket Micros) × (v : World Micros) × (taken rest seen : List Message) × (run_turns 1
        slow_turns bucket
        (start_node_fault (at 3) (seconds 2) idle_world)
      ≡ some (b', v))
    × (msg 1 ∷ msg 2 ∷ [] ≡ taken ++ rest)
    × Merged (msg 5 ∷ msg 7 ∷ []) taken seen
    × ((control (flush_expired_fault_if_needed (at 6) v) 1).queue ≡ rest ++ retained latest seen)
fault_episode-queue_whole_example =
    fault_episode-queue_whole (at 3) (at 6) (seconds 2) idle_world slow_turns bucket 1 1
      idle_world-IsReady slow_turns-AllWithin (omega arith) (omega arith) idle_world-IsQueued
      (omega arith, (omega arith, tt)) (omega arith, (omega arith, tt)) (omega arith)
      (omega (arith, free_room))
