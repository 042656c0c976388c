-- ===== src/Threads/Acts.antt =====
-- All that the threads do, each act taken whole as the other modules take it: calls of the entry
-- points, wake-ups of the bitrate threads and of the monitor, and starts of faults.
pub mod Turns
pub mod Runs
pub mod Returns
use swarm_ros_bridge.Common.{ℕ, ◌≤◌, true, Option, some, List, [], ◌∷◌, ◌>>=◌, ◌≡◌}
use swarm_ros_bridge.Double.{Double}
use swarm_ros_bridge.World.{World, is_limited}
use swarm_ros_bridge.Fault.{start_node_fault}
use swarm_ros_bridge.Monitor.{monitor_wake}
use swarm_ros_bridge.Dispatch.{Call, run_call}
use swarm_ros_bridge.SendThread.{Bucket}
use swarm_ros_bridge.SendThread.Loop.{wake}
use swarm_ros_bridge.Threads.Runs as CallRuns

-- `works`: the thread of a topic, its readings of the clock, and its bucket before.
pub data Act (W : Type 0) : Type 0 where
  calls : Call → Act W
  works : ℕ → ℕ → ℕ → ℕ → Bucket W → Act W
  watches : ℕ → Act W
  begins : ℕ → W → Act W

module _ {W : Type 0} ⦃d : Double W⦄ where
  unfoldable pub run_act : Act W → World W → Option (World W)
  unfolding run_call wake monitor_wake start_node_fault
  run_act (calls c) w = run_call c w
  run_act (works i now t₁ t₂ b) w = do (b', v) ← wake i now t₁ t₂ b w; some v
  run_act (watches now) w = some (monitor_wake now w)
  run_act (begins now duration) w = some (start_node_fault now duration w)

  unfoldable pub run_acts : List (Act W) → World W → Option (World W)
  unfolding run_act
  run_acts [] w = some w
  run_acts (a ∷ as') w = do v ← run_act a w; run_acts as' v

  -- Readings of the clock in their order, not before `now`; only limited topics have a thread; and a
  -- fault that begins may begin in any state.
  abbrev pub Fits : (World W → Type 0) → World W → ℕ → Act W → Type 0
  Fits Starts w now (calls c) = CallRuns.InTime now c
  Fits Starts w now (works i t t₁ t₂ b) = (now ≤ t) × (t ≤ t₁) × (t₁ ≤ t₂) × (is_limited w i ≡ true)
  Fits Starts w now (watches t) = now ≤ t
  Fits Starts w now (begins t duration) = (now ≤ t) × ((v : World W) → Starts v)

abbrev pub end_of : {W : Type 0} → Act W → ℕ
end_of (calls c) = CallRuns.end_of c
end_of (works i t t₁ t₂ b) = t₂
end_of (watches t) = t
end_of (begins t duration) = t

module _ {W : Type 0} ⦃d : Double W⦄ where
  abbrev pub AllFit : (World W → Type 0) → World W → ℕ → List (Act W) → Type 0
  AllFit Starts w now [] = Unit
  AllFit Starts w now (a ∷ as') = Fits Starts w now a × AllFit Starts w (end_of a) as'
