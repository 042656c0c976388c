-- ===== src/Monitor.antt =====
-- The monitor thread of src/sim_comm.cpp, `node_fault_monitor_func`, beside the other threads that
-- look for the end of a fault. A wait ends whenever it likes; then the thread looks at the state.
pub mod Once
pub mod Stopped
use swarm_ros_bridge.Common.{ℕ, Bool, true, false, not, List, [], ◌∷◌, if◌then◌else◌, ◌&&◌, leb}
use swarm_ros_bridge.Double.{Double}
use swarm_ros_bridge.World.{World}
use swarm_ros_bridge.Replay.{
  is_expired, begin_recovery, end_recovery, flush_fault_buffers, flush_expired_fault_if_needed,
}

-- What the top of the loop finds: the thread ends, waits for a fault, or waits for its end.
pub data Wait : Type 0 where
  leaves_loop : Wait
  awaits_fault : Wait
  awaits_end : ℕ → Wait

module _ {W : Type 0} ⦃d : Double W⦄ where
  unfoldable pub monitor_top : World W → Wait
  monitor_top w =
      if not w.fault.thread_running
      then leaves_loop
      else if not w.fault.active
      then awaits_fault
      else awaits_end w.fault.until

  -- The rest of a round, when the wait for the end is over and the clock reads `now`: a stopped
  -- thread leaves, and a fault that is over is recovered from.
  unfoldable pub monitor_wake : ℕ → World W → World W
  unfolding begin_recovery end_recovery flush_fault_buffers
  monitor_wake now w =
      if not w.fault.thread_running
      then w
      else if is_expired now w
      then end_recovery (flush_fault_buffers (begin_recovery w))
      else w

-- A look for the end of a fault, by the monitor or at the front of an entry point, and its time.
pub data Look : Type 0 where
  by_monitor by_entry : ℕ → Look

abbrev pub time_of : Look → ℕ
time_of (by_monitor now) = now
time_of (by_entry now) = now

module _ {W : Type 0} ⦃d : Double W⦄ where
  unfoldable pub look : Look → World W → World W
  unfolding monitor_wake flush_expired_fault_if_needed
  look (by_monitor now) w = monitor_wake now w
  look (by_entry now) w = flush_expired_fault_if_needed now w

  -- Looks by any threads, one after the other.
  unfoldable pub run_looks : List Look → World W → World W
  run_looks [] w = w
  run_looks (l ∷ ls) w = run_looks ls (look l w)
