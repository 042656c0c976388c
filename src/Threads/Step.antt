-- ===== src/Threads/Step.antt =====
-- The steps of the threads, and of the world around them: time passes, calls come in, faults start.
use swarm_ros_bridge.Common.{ℕ, ◌+◌, Bool, true, false, List, [], ◌∷◌, ◌≡◌, modify}
use swarm_ros_bridge.Double.{Double}
use swarm_ros_bridge.Topic.{Message}
use swarm_ros_bridge.World.{World, SendControl, is_limited, send_topic, control}
use swarm_ros_bridge.Fault.{is_node_fault_active_locked, start_node_fault}
use swarm_ros_bridge.Replay.{is_expired, begin_recovery, end_recovery, take_buffers}
use swarm_ros_bridge.SendThread.{Bucket, bytes_per_second, send_round, takes}
use swarm_ros_bridge.Threads.Plan.{Release, perform, plan}
use swarm_ros_bridge.Threads.{
  Tid, sender, receiver, worker, monitor, Stage, first, second, After, in_call, in_round, Pc, idle,
  looks, swaps, replays, locks, writes, System, update, resume, passed, hold, hand_over,
}

-- The threads that are called: the callbacks and the receive threads.
abbrev pub is_called : Tid → Bool
is_called (sender i) = true
is_called (receiver i) = true
is_called (worker i) = false
is_called monitor = false

module _ {W : Type 0} ⦃d : Double W⦄ where
  -- `s` with a new world, and thread `t` at `p`.
  abbrev pub moves : System W → Tid → World W → Pc W → System W
  moves s t w p = record s { world = w; pc = update s.pc t p }

  -- One step. `Starts` says in which states a fault may be started.
  pub data Step (Starts : World W → Type 0) (s : System W) : System W → Type 0 where
    ticks : (n : ℕ) → Step Starts s (record s { clock = s.clock + n })
    starts :
        (duration : W)
        → Starts s.world
        → Step Starts s (record s { world = start_node_fault s.clock duration s.world })
    is_given :
        (t : Tid) (m : Message)
        → is_called t ≡ true
        → s.pc t ≡ idle
        → Step Starts s (moves s t s.world (looks (in_call first m)))
    takes_off :
        (i : ℕ) (m : Message) (b b' : Bucket W) (c : SendControl)
        → is_limited s.world i ≡ true
        → s.pc (worker i) ≡ idle
        → send_round
            (bytes_per_second (send_topic s.world i).max_bitrate)
            s.clock
            b
            (control s.world i)
          ≡ takes m b' c
        → Step Starts s (
            moves s
              (worker i)
              (record s.world { controls = modify s.world.controls i (λ _. c) })
              (looks (in_call second m)))
    wakes :
        s.pc monitor ≡ idle
        → s.world.fault.thread_running ≡ true
        → Step Starts s (moves s monitor s.world (looks in_round))
    sees_end :
        (t : Tid) (a : After)
        → s.pc t ≡ looks a
        → is_expired s.clock s.world ≡ true
        → Step Starts s (moves s t (begin_recovery s.world) (swaps a))
    sees_no_end :
        (t : Tid) (a : After)
        → s.pc t ≡ looks a
        → is_expired s.clock s.world ≡ false
        → Step Starts s (moves s t s.world (resume a))
    swaps_out :
        (t : Tid) (a : After)
        → s.pc t ≡ swaps a
        → Step Starts s (moves s t (take_buffers s.world) (replays a (plan s.world)))
    releases :
        (t : Tid) (a : After) (r : Release W) (rs : List (Release W))
        → s.pc t ≡ replays a (r ∷ rs)
        → Step Starts s (moves s t (perform r s.world) (replays a rs))
    finishes :
        (t : Tid) (a : After)
        → s.pc t ≡ replays a []
        → Step Starts s (moves s t (end_recovery s.world) (resume a))
    holds :
        (t : Tid) (g : Stage) (m : Message)
        → s.pc t ≡ locks g m
        → s.world.fault.recovering ≡ false
        → is_node_fault_active_locked s.clock s.world.fault ≡ true
        → Step Starts s (moves s t (hold t m s.world) idle)
    passes :
        (t : Tid) (g : Stage) (m : Message)
        → s.pc t ≡ locks g m
        → s.world.fault.recovering ≡ false
        → is_node_fault_active_locked s.clock s.world.fault ≡ false
        → Step Starts s (moves s t s.world (passed t g m s.world))
    hands_over :
        (t : Tid) (m : Message)
        → s.pc t ≡ writes m
        → Step Starts s (moves s t (hand_over t m s.world) idle)

  pub data Reach (Starts : World W → Type 0) (s : System W) : System W → Type 0 where
    here : Reach Starts s s
    next : {t u : System W} → Reach Starts s t → Step Starts t u → Reach Starts s u

  -- Before the first call: every thread idle, and no fault and no replay.
  pub record IsQuiet (s : System W) : Type 0 where
    pub idle_all : (t : Tid) → s.pc t ≡ idle
    pub inactive : s.world.fault.active ≡ false
    pub steady : s.world.fault.recovering ≡ false
