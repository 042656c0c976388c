-- ===== src/Tests/Schedules.antt =====
-- Steps of the threads beside each other, from a quiet bridge.
use swarm_ros_bridge.Common.{
  map, ◌++◌, ℕ, List, some, ◌∷◌, ◌+◌, true, false, get_or, [], ◌≡◌, ◌⊎◌, refl, arith,
}
use swarm_ros_bridge.Double.Micros.{Micros, micros_double}
use swarm_ros_bridge.Fault.{start_node_fault, is_node_fault_busy, is_node_fault_active_locked}
use swarm_ros_bridge.Replay.{begin_recovery, take_buffers}
use swarm_ros_bridge.World.{World}
use swarm_ros_bridge.Dispatch.{Call, sends, receives}
use swarm_ros_bridge.SendThread.{start_bucket}
use swarm_ros_bridge.Threads.Acts.{Act, run_acts}
use swarm_ros_bridge.Threads.Acts.Returns.{run_acts_reaches}
use swarm_ros_bridge.Threads.Plan.{plan}
use swarm_ros_bridge.Threads.{
  Tid, sender, receiver, monitor, first, second, in_call, in_round, idle, looks, swaps, replays,
  locks, writes, System, update, passed, hold,
}
use swarm_ros_bridge.Threads.Step.{
  Step, ticks, starts, is_given, wakes, sees_end, sees_no_end, swaps_out, holds, passes, Reach,
  here, next, IsQuiet, moves,
}
use swarm_ros_bridge.Threads.Exclusive.{OnIdle, recovery-alone}
use swarm_ros_bridge.Threads.Progress.{waiting-ends}
use swarm_ros_bridge.Threads.Overtake.{left_of, write-overtakes_none}
use swarm_ros_bridge.Threads.Unguarded.{Anytime, late_start-overtakes}
use swarm_ros_bridge.Tests.Data.{msg, seconds, at, idle_world, held_world}

-- A quiet bridge at second 3.
abbrev quiet : System Micros
quiet = record { world = idle_world; clock = at 3; pc = λ t. idle }

quiet-IsQuiet : IsQuiet quiet
quiet-IsQuiet = record { idle_all = λ t. refl; inactive = refl; steady = refl }

-- A callback is about to write a message when a fault starts.
abbrev called : System Micros
called = moves quiet (sender 0) idle_world (looks (in_call first (msg 9)))

abbrev before_block : System Micros
before_block = moves called (sender 0) idle_world (locks first (msg 9))

abbrev called_again : System Micros
called_again = moves before_block (sender 0) idle_world (looks (in_call second (msg 9)))

abbrev before_second : System Micros
before_second = moves called_again (sender 0) idle_world (locks second (msg 9))

abbrev before_write : System Micros
before_write = moves before_second (sender 0) idle_world (writes (msg 9))

abbrev faulty : System Micros
faulty = record before_write { world = start_node_fault (at 3) (seconds 2) idle_world }

-- A message comes in, and is held back.
abbrev received : System Micros
received = moves faulty (receiver 0) faulty.world (looks (in_call first (msg 4)))

abbrev in_block : System Micros
in_block = moves received (receiver 0) faulty.world (locks first (msg 4))

abbrev held_back : System Micros
held_back = moves in_block (receiver 0) (hold (receiver 0) (msg 4) faulty.world) idle

-- The monitor sees the end of the fault and swaps the buffers.
abbrev later : System Micros
later = record held_back { clock = at 3 + at 3 }

abbrev awake : System Micros
awake = moves later monitor later.world (looks in_round)

abbrev recovering : System Micros
recovering = moves awake monitor (begin_recovery awake.world) (swaps in_round)

abbrev replaying : System Micros
replaying =
    moves recovering monitor (take_buffers recovering.world)
      (replays in_round (plan recovering.world))

written : Reach OnIdle quiet before_write
unfolding is_node_fault_active_locked
written =
    let c = msg 9 in
    let r₁ : Reach OnIdle quiet called = next here (is_given (sender 0) c refl refl) in
    let r₂ : Reach OnIdle quiet before_block =
      next r₁ (sees_no_end (sender 0) (in_call first c) (ground arith) refl) in
    let r₃ : Reach OnIdle quiet called_again =
      next r₂ (passes (sender 0) first c (ground arith) refl refl) in
    let r₄ : Reach OnIdle quiet before_second =
      next r₃ (sees_no_end (sender 0) (in_call second c) (ground arith) refl) in
    next r₄ (passes (sender 0) second c (ground arith) refl refl)

replayed : Reach OnIdle quiet replaying
unfolding is_node_fault_active_locked is_node_fault_busy start_node_fault hold begin_recovery
    take_buffers
replayed =
    let r₁ : Reach OnIdle quiet faulty = next written (starts (seconds 2) refl) in
    let r₂ : Reach OnIdle quiet received =
      next r₁ (is_given (receiver 0) (msg 4) refl (ground arith)) in
    let r₃ : Reach OnIdle quiet in_block =
      next r₂ (sees_no_end (receiver 0) (in_call first (msg 4)) (ground arith) refl) in
    let r₄ : Reach OnIdle quiet held_back =
      next r₃ (holds (receiver 0) first (msg 4) (ground arith) refl refl) in
    let r₅ : Reach OnIdle quiet later = next r₄ (ticks (at 3)) in
    let r₆ : Reach OnIdle quiet awake = next r₅ (wakes (ground arith) refl) in
    let r₇ : Reach OnIdle quiet recovering =
      next r₆ (sees_end monitor in_round (ground arith) refl) in
    next r₇ (swaps_out monitor in_round (ground arith))

write-overtakes_none_example :
    (get_or replaying.world.fault.send_buffers 0 [] ≡ [])
    × ((t : Tid) → left_of 0 (replaying.pc t) ≡ [])
write-overtakes_none_example =
    write-overtakes_none 0 quiet replaying (msg 9) quiet-IsQuiet refl refl replayed (ground arith)

recovery-alone_example :
    (monitor ≡ monitor)
    × (replaying.world.fault.recovering ≡ true)
    × (replaying.world.fault.active ≡ false)
recovery-alone_example =
    recovery-alone quiet replaying monitor monitor quiet-IsQuiet replayed (ground arith)
      (ground arith)

-- Another message comes in during the replay, and waits.
abbrev asked : System Micros
asked = moves replaying (receiver 0) replaying.world (looks (in_call first (msg 5)))

abbrev waiting : System Micros
waiting = moves asked (receiver 0) asked.world (locks first (msg 5))

waited : Reach OnIdle quiet waiting
unfolding is_node_fault_active_locked is_node_fault_busy start_node_fault hold begin_recovery
    take_buffers
waited =
    let r₁ : Reach OnIdle quiet asked =
      next replayed (is_given (receiver 0) (msg 5) refl (ground arith)) in
    next r₁ (sees_no_end (receiver 0) (in_call first (msg 5)) (ground arith) refl)

waiting-ends_example :
    (u v : System Micros) × Reach OnIdle waiting u
    × (u.world.fault.recovering ≡ false)
    × (u.pc (receiver 0) ≡ locks first (msg 5))
    × Step OnIdle u v
    × ((v.pc (receiver 0) ≡ idle) ⊎ (v.pc (receiver 0) ≡ passed (receiver 0) first (msg 5) u.world))
waiting-ends_example =
    waiting-ends quiet waiting (receiver 0) first (msg 5) quiet-IsQuiet waited (ground arith)

-- The monitor has two messages to replay after a fault that ended at second 5.
abbrev half_way : System Micros
half_way = record {
  world = take_buffers (begin_recovery held_world);
  clock = at 6;
  pc = update (λ t. idle) monitor (replays in_round (plan (begin_recovery held_world)));
}

late_start-overtakes_example :
    (u : System Micros) × Reach Anytime half_way u
    × (u.pc monitor ≡ replays in_round (plan (begin_recovery held_world)))
    × (u.pc (sender 0) ≡ writes (msg 9))
    × (u.clock ≡ at 8)
unfolding begin_recovery take_buffers
late_start-overtakes_example =
    late_start-overtakes half_way monitor in_round (plan (begin_recovery held_world)) 0 (msg 9)
      (seconds 2) (ground arith) (ground arith) refl refl refl

-- A call that finds the end of the fault of `held_world`, and one that is let through.
abbrev late_calls : List Call
late_calls = sends 0 (msg 9) (at 6) (at 6) (at 6) (at 6) ∷ receives 0 (msg 8) (at 7) (at 7) ∷ []

abbrev held_system : System Micros
held_system = record { world = held_world; clock = at 4; pc = λ t. idle }

-- Those calls, a fault of two seconds, its monitor in time and late, and the thread of topic 1.
abbrev acts : List (Act Micros)
acts =
    map Act.calls late_calls
    ++ Act.begins (at 8) (seconds 2)
      ∷ Act.watches (at 9)
      ∷ Act.works 1 (at 9) (at 9) (at 9) (start_bucket (seconds 1000) (at 8))
      ∷ Act.watches (at 10)
      ∷ []

run_acts_reaches_example :
    (v : World Micros) × (now : ℕ) × (run_acts acts held_world ≡ some v)
    × (v.fault.recovering ≡ false)
    × Reach Anytime held_system (record held_system { world = v; clock = now })
run_acts_reaches_example =
    run_acts_reaches Anytime acts held_system (λ t. refl) refl
      (
        (omega arith, omega arith, omega arith, omega arith),
        (
          (omega arith, omega arith),
          (
            (omega arith, λ v. tt),
            (omega arith, ((omega arith, omega arith, omega arith, refl), (omega arith, tt))),
          ),
        ),
      )
