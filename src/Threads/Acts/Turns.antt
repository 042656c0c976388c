-- ===== src/Threads/Acts/Turns.antt =====
-- The wake-ups and the starts of faults, each taken whole, are turns of the threads.
use swarm_ros_bridge.Common.{
  ℕ, ◌≤◌, ◌-◌, Bool, true, not, some, if◌then◌else◌, ◌≡◌, sym, subst, arith, Bool-cases, inl, inr,
  modify, some-inj,
}
use swarm_ros_bridge.Double.{Double}
use swarm_ros_bridge.Topic.{Message}
use swarm_ros_bridge.World.{World, SendControl, is_limited, send_topic, control}
use swarm_ros_bridge.Fault.{start_node_fault}
use swarm_ros_bridge.Monitor.{monitor_wake}
use swarm_ros_bridge.Replay.{flush_expired_fault_if_needed, send_serialized_message}
use swarm_ros_bridge.Dispatch.{consume_send_message_if_fault_active}
use swarm_ros_bridge.SendThread.{Bucket, takes, bytes_per_second, send_round, after_round}
use swarm_ros_bridge.Threads.{
  Tid, worker, monitor, second, in_call, in_round, idle, looks, locks, System, hold, hand_over,
}
use swarm_ros_bridge.Threads.Step.{Reach, here, next, ticks, starts, takes_off, wakes}
use swarm_ros_bridge.Threads.Turn.{
  Turn, update-idle, at-turn, goes, waits_till, flushes, hands, turn_ends,
}
use swarm_ros_bridge.Threads.Calls.{admits}

module _ {W : Type 0} ⦃d : Double W⦄ (Starts : World W → Type 0) (s : System W) where
  -- A thread that is idle, before its turn.
  idle-Turn : (t : Tid) → s.pc t ≡ idle → Turn Starts s t s.world s.clock idle
  idle-Turn t e =
      subst (λ pc. Reach Starts s (record s { pc = pc })) (sym (update-idle s.pc t idle e)) here

  pub later-Reach : (now : ℕ) → s.clock ≤ now → Reach Starts s (record s { clock = now })
  later-Reach now h =
      subst (λ n. Reach Starts s (record s { clock = n })) (omega arith)
        (next here (ticks (now - s.clock)))

  pub begins-Reach :
      (now : ℕ) (duration : W)
      → s.clock ≤ now
      → Starts s.world
      → Reach Starts s (record s { world = start_node_fault now duration s.world; clock = now })
  begins-Reach now duration h q = next (later-Reach now h) (starts duration q)

  -- The monitor.
  running-Reach :
      (now : ℕ)
      → s.pc monitor ≡ idle
      → s.clock ≤ now
      → s.world.fault.thread_running ≡ true
      → Reach Starts s (record s { world = flush_expired_fault_if_needed now s.world; clock = now })
  running-Reach now e h run =
      let w = s.world in
      let r₀ = waits_till Starts s monitor w s.clock now idle h (idle-Turn monitor e) in
      let r₁ =
        goes Starts s monitor w w now idle (looks in_round) r₀
          (wakes (at-turn s monitor idle) run) in
      turn_ends Starts s monitor _ now e (flushes Starts s monitor in_round now w r₁)

  pub watches-Reach :
      (now : ℕ)
      → s.pc monitor ≡ idle
      → s.clock ≤ now
      → Reach Starts s (record s { world = monitor_wake now s.world; clock = now })
  unfolding monitor_wake flush_expired_fault_if_needed
  watches-Reach now e h = elim (Bool-cases s.world.fault.thread_running) [
    | inl run ↦
        subst
          (λ (b : Bool). Reach Starts s (record s {
            world = if not b then s.world else flush_expired_fault_if_needed now s.world;
            clock = now;
          }))
          (sym run) (running-Reach now e h run)
    | inr stopped ↦
        subst
          (λ (b : Bool). Reach Starts s (record s {
            world = if not b then s.world else flush_expired_fault_if_needed now s.world;
            clock = now;
          }))
          (sym stopped) (later-Reach now h)
  ]

  -- A bitrate thread that has taken a message.
  pub taken-Reach :
      (i now t₁ t₂ : ℕ) (b b' : Bucket W) (m : Message) (c : SendControl) (v : World W)
      → s.pc (worker i) ≡ idle
      → s.clock ≤ now
      → now ≤ t₁
      → t₁ ≤ t₂
      → is_limited s.world i ≡ true
      → send_round (bytes_per_second (send_topic s.world i).max_bitrate) now b (control s.world i)
        ≡ takes m b' c
      → after_round i t₁ t₂ s.world (takes m b' c) ≡ some v
      → Reach Starts s (record s { world = v; clock = t₂ })
  unfolding after_round consume_send_message_if_fault_active hold hand_over
  taken-Reach i now t₁ t₂ b b' m c v e h₀ h₁ h₂ l round f =
      let t = worker i in
      let w = s.world in
      let w₁ = record w { controls = modify w.controls i (λ _. c) } in
      let w₂ = flush_expired_fault_if_needed t₁ w₁ in
      let r₀ = waits_till Starts s t w s.clock now idle h₀ (idle-Turn t e) in
      let r₁ =
        goes Starts s t w w₁ now idle (looks (in_call second m)) r₀
          (takes_off i m b b' c l (at-turn s t idle) round) in
      let r₂ = waits_till Starts s t w₁ now t₁ (looks (in_call second m)) h₁ r₁ in
      let r₃ =
        waits_till Starts s t w₂ t₁ t₂ (locks second m) h₂
          (flushes Starts s t (in_call second m) t₁ w₁ r₂) in
      turn_ends Starts s t v t₂ e (
        admits Starts s t second m t₂ t₂ w₂ v (λ u. some (send_serialized_message i m u))
          (omega arith) r₃
          (λ q p.
            subst (λ u. Turn Starts s t u t₂ idle) (some-inj _ v p) (hands Starts s t m t₂ w₂ q))
          f)
