-- ===== src/Monitor/Once.antt =====
-- A fault is recovered from once, whoever sees its end.
use swarm_ros_bridge.Common.{
  ◌<◌, ◌≤◌, true, false, List, [], ◌∷◌, ◌++◌, All, arith, ◌≡◌, refl, ap, ◌∙◌, le→leb,
}
use swarm_ros_bridge.Double.{Double}
use swarm_ros_bridge.World.{World}
use swarm_ros_bridge.Replay.{
  begin_recovery, end_recovery, flush_fault_buffers, flush_expired_fault_if_needed,
}
use swarm_ros_bridge.Dispatch.Recovery.{recovery-Recovered}
use swarm_ros_bridge.Monitor.{Look, by_monitor, by_entry, time_of, look, run_looks, monitor_wake}

module _ {W : Type 0} ⦃d : Double W⦄ where
  abbrev pub recovered : World W → World W
  recovered w = end_recovery (flush_fault_buffers (begin_recovery w))

  pub look-early : (l : Look) (w : World W) → time_of l < w.fault.until → look l w ≡ w
  unfolding look monitor_wake flush_expired_fault_if_needed
  look-early (by_monitor now) w h = ground arith
  look-early (by_entry now) w h = ground arith

  looks-early :
      (ls ms : List Look) (w : World W)
      → All (λ l. time_of l < w.fault.until) ls
      → run_looks (ls ++ ms) w ≡ run_looks ms w
  unfolding run_looks
  looks-early [] ms w h = refl
  looks-early (l ∷ ls) ms w h =
      ap (run_looks (ls ++ ms)) (look-early l w h.0) ∙ looks-early ls ms w h.1

  look-late :
      (l : Look) (w : World W)
      → w.fault.active ≡ true
      → w.fault.thread_running ≡ true
      → w.fault.until ≤ time_of l
      → look l w ≡ recovered w
  unfolding look monitor_wake flush_expired_fault_if_needed
  look-late (by_monitor now) w a r h = rw (r, a, le→leb w.fault.until now h)
  look-late (by_entry now) w a r h = rw (a, le→leb w.fault.until now h)

  pub look-idle : (l : Look) (w : World W) → w.fault.active ≡ false → look l w ≡ w
  unfolding look monitor_wake flush_expired_fault_if_needed
  look-idle (by_monitor now) w a = ground arith
  look-idle (by_entry now) w a = ground arith

  looks-idle : (ls : List Look) (w : World W) → w.fault.active ≡ false → run_looks ls w ≡ w
  unfolding run_looks
  looks-idle [] w a = refl
  looks-idle (l ∷ ls) w a = ap (run_looks ls) (look-idle l w a) ∙ looks-idle ls w a

  -- While the monitor runs and a fault is active, whichever threads look for its end, and however
  -- often: the looks before the end do nothing, the first one not before it makes the whole
  -- recovery, and all later ones do nothing. Each look is taken whole, its replay included.
  pub run_looks-once :
      (early late : List Look) (l : Look) (w : World W)
      → w.fault.active ≡ true
      → w.fault.thread_running ≡ true
      → All (λ k. time_of k < w.fault.until) early
      → w.fault.until ≤ time_of l
      → run_looks (early ++ l ∷ late) w ≡ recovered w
  unfolding run_looks
  run_looks-once early late l w a r before h =
      looks-early early (l ∷ late) w before
      ∙ ap (run_looks late) (look-late l w a r h)
      ∙ looks-idle late (recovered w) (recovery-Recovered w).inactive
