-- ===== src/SendThread/Loop.antt =====
-- The loop of `send_func` in src/sim_comm.cpp, wake-up after wake-up, between the calls of the entry
-- points that fill its queue.
use swarm_ros_bridge.Common.{ℕ, Option, some, List, [], ◌∷◌, ◌++◌, ◌>>=◌}
use swarm_ros_bridge.Double.{Double}
use swarm_ros_bridge.Topic.{Message}
use swarm_ros_bridge.World.{World, send_topic, control}
use swarm_ros_bridge.Dispatch.{Call, run_call}
use swarm_ros_bridge.Dispatch.Calls.{sends_on}
use swarm_ros_bridge.SendThread.{
  Bucket, Round, exits, waits, retries, takes, bytes_per_second, send_round, after_round,
}

-- What happens next: a call of an entry point, or a wake-up of the topic's thread with its readings
-- of the clock.
pub data Turn : Type 0 where
  calls : Call → Turn
  wakes : ℕ → ℕ → ℕ → Turn

-- The messages that are handed over for send topic `i`.
abbrev pub given : ℕ → List Turn → List Message
given i [] = []
given i (calls c ∷ ts) = sends_on i (c ∷ []) ++ given i ts
given i (wakes now t₁ t₂ ∷ ts) = given i ts

module _ {W : Type 0} ⦃d : Double W⦄ where
  -- The thread's variables and the state after a round. `none`: the check before the write waits for
  -- a replay.
  unfoldable pub finish_round :
      ℕ → ℕ → ℕ → Bucket W → World W → Round W → Option (Bucket W × World W)
  unfolding after_round
  finish_round i t₁ t₂ b w exits = some (b, w)
  finish_round i t₁ t₂ b w waits = some (b, w)
  finish_round i t₁ t₂ b w (retries t b') = some (b', w)
  finish_round i t₁ t₂ b w (takes m b' c) = do
    v ← after_round i t₁ t₂ w (takes m b' c)
    some (b', v)

  unfoldable pub wake : ℕ → ℕ → ℕ → ℕ → Bucket W → World W → Option (Bucket W × World W)
  unfolding send_round finish_round
  wake i now t₁ t₂ b w =
      finish_round i t₁ t₂ b w
        (send_round (bytes_per_second (send_topic w i).max_bitrate) now b (control w i))

  unfoldable pub run_turn : ℕ → Turn → Bucket W → World W → Option (Bucket W × World W)
  unfolding run_call wake
  run_turn i (calls c) b w = do v ← run_call c w; some (b, v)
  run_turn i (wakes now t₁ t₂) b w = wake i now t₁ t₂ b w

  unfoldable pub run_turns : ℕ → List Turn → Bucket W → World W → Option (Bucket W × World W)
  unfolding run_turn
  run_turns i [] b w = some (b, w)
  run_turns i (t ∷ ts) b w = do (b', v) ← run_turn i t b w; run_turns i ts b' v
